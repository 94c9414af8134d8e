-- ===== src/Sim.antt =====
-- tapi_sim.c, the SIM card.
pub mod Getters
pub mod Guards
pub mod Requests
pub mod Protocol
pub mod Replies
pub mod ReplyResults
