-- ===== src/Manager.antt =====
-- tapi_manager.c, the context of a client and the requests about modems.
pub mod Proxies
pub mod Cells
pub mod References
pub mod Loops
pub mod Abnormal
pub mod Requests
pub mod Protocol
pub mod Getters
pub mod Settings
pub mod Replies
pub mod ReplyResults
pub mod Session
pub mod Opening
pub mod Failing
pub mod Life
pub mod Started
pub mod Reachable
pub mod Masks
mod Tests
