-- ===== src/Syncd.antt =====
-- src/bin/ptp-syncd.rs: the state that the monitor of a pair of `ptp4l` processes keeps, and the
-- handlers of what their snapshots say. A log message is its level and its text, without its fields.
pub mod Slave
pub mod Master
pub mod Loops
pub mod Marks
pub mod Waiting
pub mod Complaints
use Prim.Native.String.{String}
use rs.Prelude.{
  ℕ, ◌-◌, ◌*◌, ◌^◌, ◌≡◌, ◌⊎◌, inl, inr, Bool, true, false, not, ◌&&◌, List, [], ◌∷◌, ◌++◌, Option,
  none, some, ltb, if◌then◌else◌,
}
use rs.Proto.State.{
  PortState, PtpSnapshot, same_state, is_synchronized, is_unexpected_for_slave,
  is_unexpected_for_master,
}
use rs.Proto.Instance.{
  Os, PtpQueryError, io, command_failed, invalid_utf8, not_ready, process_exited,
  process_not_running, parse_error,
}

pub data Level : Type 0 where
  error warn info debug : Level

pub record Log : Type 0 where
  pub level : Level
  pub message : String

pub data SlaveSyncState : Type 0 where
  unobserved unsynchronized synchronized : SlaveSyncState

-- Instants are numbers of nanoseconds.
pub record MonitorState : Type 0 where
  pub slave_sync_state : SlaveSyncState
  pub last_slave_port_state : Option PortState
  pub last_slave_pending_log : Option ℕ
  pub last_slave_unsync_log : Option ℕ
  pub last_slave_process_down_log : Option ℕ
  pub last_master_port_state : Option PortState
  pub last_master_pending_log : Option ℕ
  pub last_master_process_down_log : Option ℕ

-- `MonitorState::default()`
abbrev pub default_state : MonitorState
default_state = record {
  slave_sync_state = unobserved;
  last_slave_port_state = none;
  last_slave_pending_log = none;
  last_slave_unsync_log = none;
  last_slave_process_down_log = none;
  last_master_port_state = none;
  last_master_pending_log = none;
  last_master_process_down_log = none;
}

abbrev pub degraded_status_log_interval : ℕ
degraded_status_log_interval = 10 * 10 ^ 9

abbrev pub is_some : {A : Type 0} → Option A → Bool
is_some none = false
is_some (some a) = true

unfoldable pub is_synced : SlaveSyncState → Bool
is_synced unobserved = false
is_synced unsynchronized = false
is_synced synchronized = true

unfoldable pub is_unsynced : SlaveSyncState → Bool
is_unsynced unobserved = false
is_unsynced unsynchronized = true
is_unsynced synchronized = false

abbrev pub one : Level → String → List Log
one level message = record { level = level; message = message } ∷ []

abbrev pub log_if : Bool → Level → String → List Log
log_if b level message = if b then one level message else []

-- What `should_emit_periodic` returns, and the instant that it leaves, with the reading of the clock.
unfoldable pub should_emit_periodic : Option ℕ → ℕ → ℕ → Bool × Option ℕ
should_emit_periodic none interval now = (true, some now)
should_emit_periodic (some previous) interval now =
    if ltb (now - previous) interval then (false, some previous) else (true, some now)

unfoldable pub state_changed : Option PortState → PortState → Bool
state_changed none current = true
state_changed (some previous) current = not (same_state previous current)

-- A handler's state and logs; each reads the clock once at most, as `now`.
abbrev pub Handled : Type 0
Handled = MonitorState × List Log
