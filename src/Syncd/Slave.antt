-- ===== src/Syncd/Slave.antt =====
-- src/bin/ptp-syncd.rs: what a snapshot of the slave changes in the state of the monitor.
use Prim.Native.String.{String}
use rs.Prelude.{
  ℕ, ◌⊎◌, inl, inr, Bool, true, false, not, ◌&&◌, List, [], ◌++◌, none, some, if◌then◌else◌,
}
use rs.Proto.State.{PortState, PtpSnapshot, is_synchronized, is_unexpected_for_slave}
use rs.Proto.Instance.{
  Os, PtpQueryError, io, command_failed, invalid_utf8, not_ready, process_exited,
  process_not_running, parse_error,
}
use rs.Syncd.{
  error, warn, info, debug, Log, unsynchronized, synchronized, MonitorState,
  degraded_status_log_interval, is_some, is_synced, is_unsynced, one, log_if, should_emit_periodic,
  state_changed, Handled,
}

unfoldable pub on_synchronized_slave_snapshot : MonitorState → Bool → PortState → Bool → Handled
on_synchronized_slave_snapshot s warn_on_unsync current changed = (
  record s {
    last_slave_port_state = if changed then some current else s.last_slave_port_state;
    slave_sync_state = synchronized;
    last_slave_unsync_log = none;
  },
  log_if (not (is_synced s.slave_sync_state)) info (
        if warn_on_unsync
        then "slave clock is now synchronized"
        else "initial slave synchronization established")
      ++ (if changed
          then one debug "slave state changed"
          else log_if warn_on_unsync debug "slave synchronization offset"),
)

unfoldable pub log_unsynchronized_slave_status : MonitorState → Bool → Bool → Bool → ℕ → Handled
log_unsynchronized_slave_status s warn_on_unsync unexpected changed now =
    let periodic = should_emit_periodic s.last_slave_unsync_log degraded_status_log_interval now in
    if unexpected && changed
    then (s, [])
    else if warn_on_unsync && is_synced s.slave_sync_state
    then (record s { last_slave_unsync_log = some now }, one warn "slave clock is not synchronized")
    else if warn_on_unsync
    then (
      record s { last_slave_unsync_log = periodic.1 },
      if not periodic.0
          then []
          else if unexpected
          then one warn "slave remains in unexpected unsynchronized state"
          else one debug "slave remains unsynchronized",
    )
    else (
      s,
      if is_unsynced s.slave_sync_state
          then []
          else if unexpected
          then one warn "unexpected slave state while waiting for initial synchronization"
          else one debug "waiting for initial slave synchronization",
    )

unfoldable pub log_unsynchronized_slave_state_change : Bool → List Log
log_unsynchronized_slave_state_change unexpected =
    if unexpected
    then one warn "slave state changed to unexpected value"
    else one debug "slave state changed"

unfoldable pub on_unsynchronized_slave_snapshot :
    MonitorState → Bool → PortState → Bool → ℕ → Handled
on_unsynchronized_slave_snapshot s warn_on_unsync current changed now =
    let unexpected = is_unexpected_for_slave current in
    let status = log_unsynchronized_slave_status s warn_on_unsync unexpected changed now in
    (
      record status.0 {
        last_slave_port_state = if changed then some current else status.0.last_slave_port_state;
        slave_sync_state = unsynchronized;
      },
      status.1 ++ (if changed then log_unsynchronized_slave_state_change unexpected else []),
    )

module _ {F64 : Type 0} where
  unfoldable pub on_slave_snapshot : MonitorState → PtpSnapshot F64 → Bool → ℕ → Bool × Handled
  on_slave_snapshot s snapshot warn_on_unsync now =
      let available =
        log_if (is_some s.last_slave_pending_log) debug "slave snapshot became available" in
      let s = record s { last_slave_pending_log = none } in
      let current = snapshot.port_data.port_state in
      let changed = state_changed s.last_slave_port_state current in
      let yes = on_synchronized_slave_snapshot s warn_on_unsync current changed in
      let no = on_unsynchronized_slave_snapshot s warn_on_unsync current changed now in
      if is_synchronized snapshot
      then (true, (yes.0, available ++ yes.1))
      else (false, (no.0, available ++ no.1))

-- `handle_slave_snapshot` where the process is down, with the two messages.
unfoldable pub on_slave_process_down : MonitorState → String → String → ℕ → Handled
on_slave_process_down s first again now =
    let periodic =
      should_emit_periodic s.last_slave_process_down_log degraded_status_log_interval now in
    if is_some s.last_slave_process_down_log
    then (
      record s {
        last_slave_pending_log = none;
        slave_sync_state = unsynchronized;
        last_slave_process_down_log = periodic.1;
      },
      log_if periodic.0 warn again,
    )
    else (
      record s {
        last_slave_pending_log = none;
        slave_sync_state = unsynchronized;
        last_slave_process_down_log = some now;
      },
      one error first,
    )

-- `handle_slave_snapshot` where the snapshot is not ready.
unfoldable pub on_slave_not_ready : MonitorState → Bool → ℕ → Handled
on_slave_not_ready s warn_on_unsync now = (
  record s {
    last_slave_process_down_log = none;
    last_slave_pending_log =
        if is_some s.last_slave_pending_log then s.last_slave_pending_log else some now;
  },
  log_if (is_some s.last_slave_process_down_log) info "slave ptp4l process became reachable again"
      ++ (if is_some s.last_slave_pending_log
          then []
          else if warn_on_unsync && is_synced s.slave_sync_state
          then one warn "slave snapshot temporarily unavailable after synchronization"
          else one debug "slave snapshot not ready yet; waiting for ptp4l startup"),
)

unfoldable pub on_slave_failure : MonitorState → Handled
on_slave_failure s = (
  record s { last_slave_process_down_log = none; last_slave_pending_log = none },
  one error "failed to collect slave snapshot",
)

module _ (os : Os) where
  -- `handle_slave_snapshot` on what `snapshot` returns.
  unfoldable pub handle_slave :
      MonitorState → PtpQueryError os ⊎ PtpSnapshot os.F64 → Bool → ℕ → Bool × Handled
  handle_slave s (inr snapshot) warn_on_unsync now =
      let handled =
        on_slave_snapshot (record s { last_slave_process_down_log = none }) snapshot warn_on_unsync
          now in
      (
        handled.0,
        (
          handled.1.0,
          log_if (is_some s.last_slave_process_down_log) info
                "slave ptp4l process became reachable again"
              ++ handled.1.1,
        ),
      )
  handle_slave s (inl (not_ready dataset)) warn_on_unsync now =
      (false, on_slave_not_ready s warn_on_unsync now)
  handle_slave s (inl (process_exited status)) warn_on_unsync now = (
    false,
    on_slave_process_down s "slave ptp4l process exited unexpectedly"
        "slave ptp4l process remains down; no auto-restart configured" now,
  )
  handle_slave s (inl process_not_running) warn_on_unsync now = (
    false,
    on_slave_process_down s "slave ptp4l process not running" "slave ptp4l process not running" now,
  )
  handle_slave s (inl (io e)) warn_on_unsync now = (false, on_slave_failure s)
  handle_slave s (inl (command_failed status)) warn_on_unsync now = (false, on_slave_failure s)
  handle_slave s (inl (invalid_utf8 e)) warn_on_unsync now = (false, on_slave_failure s)
  handle_slave s (inl (parse_error e)) warn_on_unsync now = (false, on_slave_failure s)
