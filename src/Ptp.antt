-- ===== src/Ptp.antt =====
-- src/ptp_phc: times of precision hardware clocks.
pub mod Time
pub mod Abi
pub mod Clock
