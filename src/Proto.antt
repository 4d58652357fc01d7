-- ===== src/Proto.antt =====
-- src/ptp_proto: what `ptp4l` says of its state, and the process that is managed.
pub mod State
pub mod Instance
