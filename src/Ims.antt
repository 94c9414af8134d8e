-- ===== src/Ims.antt =====
-- tapi_ims.c, the IP multimedia subsystem.
pub mod Getters
