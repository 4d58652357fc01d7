-- ===== src/Avtp.antt =====
-- src/avtp: the AVTP packets of IEEE 1722.
pub mod Timestamp
pub mod Aaf
pub mod StreamId
pub mod Subtype
pub mod Headers
pub mod Pdu
pub mod Synchronizer
pub mod Transport
