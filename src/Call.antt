-- ===== src/Call.antt =====
-- tapi_call.c, voice calls.
pub mod Params
pub mod Request
pub mod Control
pub mod Memory
pub mod RequestMemory
pub mod ControlMemory
pub mod Sent
pub mod Decode
pub mod Reply
pub mod Ecc
pub mod Signal
pub mod DecodeBounds
pub mod ListBounds
pub mod Completion
pub mod ReplyResults
pub mod ReplyValues
pub mod Protocol
pub mod QuietSteps
pub mod RequestProtocol
pub mod ControlProtocol
pub mod Issue
pub mod Delivery
pub mod Watch
pub mod WatchMemory
pub mod Registration
pub mod EccBounds
pub mod EccSearch
pub mod SignalValues
pub mod DecodeRoundTrip
mod Tests
mod ValueTests
mod SignalTests
pub mod DefaultSlot
pub mod StateSearch
pub mod Dispatch
mod StateTests
