-- ===== src/Bus.antt =====
-- The D-Bus side of every request: messages, and the calls of the gdbus client library.
pub mod Message
pub mod Client
pub mod Property
pub mod Found
pub mod Answers
pub mod Monad
pub mod Ownership
pub mod Heap
pub mod Held
pub mod Steps
pub mod Rules
pub mod Request
pub mod Wire
pub mod Guards
pub mod RequestRules
pub mod Issued
pub mod Frees
pub mod Logging
pub mod SentRules
pub mod WholeRules
pub mod Delivers
