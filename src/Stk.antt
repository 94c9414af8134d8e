-- ===== src/Stk.antt =====
-- tapi_stk.c, the toolkit of the SIM card.
pub mod Requests
pub mod Protocol
