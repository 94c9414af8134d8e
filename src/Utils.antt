-- ===== src/Utils.antt =====
-- tapi_utils.c, the helpers that every other file of the framework calls.
pub mod Codec
pub mod Network
pub mod Apn
pub mod CallNames
pub mod Modem
pub mod Proxies
pub mod Plmn
mod Tests
pub mod Interfaces
pub mod Switches
mod InterfaceTests
