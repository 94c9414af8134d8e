-- ===== src/Data.antt =====
-- tapi_data.c, the data connection.
pub mod Getters
pub mod Requests
pub mod Protocol
