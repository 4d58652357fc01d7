-- ===== src/Syncd/Master.antt =====
-- src/bin/ptp-syncd.rs: what a snapshot of the master changes in the state of the monitor.

use rs.Prelude.{
  ℕ, ◌⊎◌, inl, inr, Bool, true, false, not, List, [], ◌++◌, Option, none, some, if◌then◌else◌,
}
use rs.Proto.State.{PortState, PtpSnapshot, same_state, is_unexpected_for_master}
use rs.Proto.Instance.{
  Os, PtpQueryError, io, command_failed, invalid_utf8, not_ready, process_exited,
  process_not_running, parse_error,
}
use rs.Syncd.{
  error, warn, info, debug, Log, MonitorState, degraded_status_log_interval, is_some, one, log_if,
  should_emit_periodic, Handled,
}

unfoldable pub master_logs : Option PortState → PortState → List Log
master_logs none current =
    if is_unexpected_for_master current
    then one warn "master initial state is unexpected"
    else one debug "master initial state observed"
master_logs (some previous) current =
    if same_state previous current
    then []
    else if is_unexpected_for_master current
    then one warn "master state changed to unexpected value"
    else one debug "master state changed"

module _ {F64 : Type 0} where
  unfoldable pub on_master_snapshot_ok : MonitorState → PtpSnapshot F64 → Handled
  on_master_snapshot_ok s snapshot = (
    record s {
      last_master_process_down_log = none;
      last_master_pending_log = none;
      last_master_port_state = some snapshot.port_data.port_state;
    },
    log_if (is_some s.last_master_process_down_log) info
          "master ptp4l process became reachable again"
        ++ log_if (is_some s.last_master_pending_log) debug "master snapshot became available"
        ++ master_logs s.last_master_port_state snapshot.port_data.port_state,
  )

unfoldable pub on_master_snapshot_not_ready : MonitorState → ℕ → Handled
on_master_snapshot_not_ready s now =
    let again =
      log_if (is_some s.last_master_process_down_log) info
        "master ptp4l process became reachable again" in
    let periodic =
      should_emit_periodic s.last_master_pending_log degraded_status_log_interval now in
    let started = is_some s.last_master_port_state in
    if is_some s.last_master_pending_log
    then (
      record s { last_master_process_down_log = none; last_master_pending_log = periodic.1 },
      again
          ++ (if not periodic.0
              then []
              else if started
              then one warn "master snapshot still unavailable"
              else one debug "master snapshot still not ready during startup"),
    )
    else (
      record s { last_master_process_down_log = none; last_master_pending_log = some now },
      again
          ++ (if started
              then one warn "master snapshot unavailable after startup"
              else one debug "master snapshot not ready yet; waiting for ptp4l startup"),
    )

-- With whether there is a status; the warnings differ only in their fields.
unfoldable pub on_master_process_down : MonitorState → Bool → ℕ → Handled
on_master_process_down s exited now =
    let periodic =
      should_emit_periodic s.last_master_process_down_log degraded_status_log_interval now in
    if is_some s.last_master_process_down_log
    then (
      record s { last_master_pending_log = none; last_master_process_down_log = periodic.1 },
      log_if periodic.0 warn "master ptp4l process not running",
    )
    else (
      record s { last_master_pending_log = none; last_master_process_down_log = some now },
      one error (
          if exited
          then "master ptp4l process exited unexpectedly"
          else "master ptp4l process not running"),
    )

unfoldable pub on_master_failure : MonitorState → Handled
on_master_failure s = (
  record s { last_master_process_down_log = none; last_master_pending_log = none },
  one error "failed to collect master snapshot",
)

module _ (os : Os) where
  -- `handle_master_snapshot` on what `snapshot` returns.
  unfoldable pub handle_master : MonitorState → PtpQueryError os ⊎ PtpSnapshot os.F64 → ℕ → Handled
  handle_master s (inr snapshot) now = on_master_snapshot_ok s snapshot
  handle_master s (inl (not_ready dataset)) now = on_master_snapshot_not_ready s now
  handle_master s (inl (process_exited status)) now = on_master_process_down s true now
  handle_master s (inl process_not_running) now = on_master_process_down s false now
  handle_master s (inl (io e)) now = on_master_failure s
  handle_master s (inl (command_failed status)) now = on_master_failure s
  handle_master s (inl (invalid_utf8 e)) now = on_master_failure s
  handle_master s (inl (parse_error e)) now = on_master_failure s
