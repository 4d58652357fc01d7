-- ===== src/Avtp/Headers.antt =====
-- src/avtp/headers: the header families of AVTP packets.
pub mod Common
pub mod Stream
pub mod Control
pub mod Alternative
pub mod Frame
