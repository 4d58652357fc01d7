-- ===== src/Avtp/Aaf.antt =====
-- The AVTP audio format (src/avtp/formats/aaf).
pub mod Data
pub mod Pcm
pub mod Packet
pub mod Stream
