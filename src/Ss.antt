-- ===== src/Ss.antt =====
-- tapi_ss.c, the supplementary services.
pub mod Log
pub mod Rules
pub mod Requests
pub mod Protocol
pub mod Replies
pub mod ReplyResults
