-- ===== src/Network.antt =====
-- tapi_network.c, the registration with a network.
pub mod Cells
pub mod Replies
pub mod Lists
pub mod ReplyResults
pub mod Requests
pub mod Protocol
pub mod Getters
mod Tests
