-- ===== src/Tests.antt =====
-- Theorems at concrete inputs, and runs of the code.
pub mod Memory
mod Pdu
mod Time
mod Audio
mod Clock
mod Ethernet
mod Wav
pub mod Pmc
pub mod Instance
mod Kernel
mod Monitor
