-- ===== src/Syncd/Waiting.antt =====
-- src/bin/ptp-syncd.rs: how the wait for the first synchronization ends.
use rs.Prelude.{
  ℕ, ◌≡◌, refl, ◌∙◌, ap, ◌⊎◌, inl, inr, Bool, true, false, List, [], ◌∷◌, none, if◌then◌else◌,
}
use rs.Proto.State.{PtpSnapshot, is_synchronized}
use rs.Proto.Instance.{
  Os, PtpQueryError, io, command_failed, invalid_utf8, not_ready, process_exited,
  process_not_running, parse_error, snapshot,
}
use rs.Syncd.{MonitorState, is_some, is_synced, Handled}
use rs.Syncd.Slave.{
  on_slave_snapshot, on_synchronized_slave_snapshot, on_unsynchronized_slave_snapshot,
  on_slave_process_down, on_slave_not_ready, on_slave_failure, handle_slave,
}
use rs.Syncd.Loops.{
  Round, Monitor, handle_slave_snapshot, handle_master_snapshot, poll, sleep, wait_for_initial_sync,
}
use rs.Syncd.Marks.{either, handle_master-marks, sleep_waiting}

module _ (os : Os) where
  on_slave_snapshot-is_synced :
      (s : MonitorState) (p : PtpSnapshot os.F64) (w : Bool) (now : ℕ)
      → is_synced (on_slave_snapshot s p w now).1.0.slave_sync_state
        ≡ (on_slave_snapshot s p w now).0
  unfolding on_slave_snapshot on_synchronized_slave_snapshot on_unsynchronized_slave_snapshot
      is_synced
  on_slave_snapshot-is_synced s p w now = go (is_synchronized p) refl
    where
      go :
          (b : Bool)
          → is_synchronized p ≡ b
          → is_synced (on_slave_snapshot s p w now).1.0.slave_sync_state
            ≡ (on_slave_snapshot s p w now).0
      go true e = rw (on_slave_snapshot, e) refl
      go false e = rw (on_slave_snapshot, e) refl

  -- Without warnings, a state that was not synchronized is after the handler as it says.
  handle_slave-is_synced :
      (s : MonitorState) (r : PtpQueryError os ⊎ PtpSnapshot os.F64) (now : ℕ)
      → is_synced s.slave_sync_state ≡ false
      → is_synced (handle_slave os s r false now).1.0.slave_sync_state
        ≡ (handle_slave os s r false now).0
  unfolding handle_slave on_slave_snapshot on_synchronized_slave_snapshot
      on_unsynchronized_slave_snapshot on_slave_not_ready on_slave_failure on_slave_process_down
      is_synced
  handle_slave-is_synced s (inr p) now h =
      on_slave_snapshot-is_synced (record s { last_slave_process_down_log = none }) p false now
  handle_slave-is_synced s (inl (not_ready d)) now h = h
  handle_slave-is_synced s (inl (process_exited x)) now h =
      either (λ (h : Handled). is_synced h.0.slave_sync_state ≡ false)
        (is_some s.last_slave_process_down_log) refl refl
  handle_slave-is_synced s (inl process_not_running) now h =
      either (λ (h : Handled). is_synced h.0.slave_sync_state ≡ false)
        (is_some s.last_slave_process_down_log) refl refl
  handle_slave-is_synced s (inl (io e)) now h = h
  handle_slave-is_synced s (inl (command_failed x)) now h = h
  handle_slave-is_synced s (inl (invalid_utf8 e)) now h = h
  handle_slave-is_synced s (inl (parse_error e)) now h = h

  poll-is_synced :
      (m : Monitor os) (r : Round os)
      → is_synced m.state.slave_sync_state ≡ false
      → is_synced (poll os m false r).1.state.slave_sync_state ≡ (poll os m false r).0
  unfolding poll handle_slave_snapshot handle_master_snapshot
  poll-is_synced m r h =
      let asked = snapshot os m.slave m.world in
      let handled = (handle_slave os m.state asked.0 false r.slave_now).1.0 in
      let (masters, rest) =
        handle_master-marks os handled (snapshot os m.master asked.2).0 r.master_now in
      ap is_synced rest.sync ∙ handle_slave-is_synced m.state asked.0 r.slave_now h

  abbrev pub SyncedAs : Bool × Monitor os → Type 0
  SyncedAs h = is_synced h.1.state.slave_sync_state ≡ h.0

  -- On every system, for all rounds before the shutdown, and from a state that is not
  -- synchronized: `wait_for_initial_sync` returns true if the state that it leaves says that the
  -- slave is synchronized, and false if not.
  pub wait_for_initial_sync-is_synced :
      (rs : List (Round os)) (m : Monitor os)
      → is_synced m.state.slave_sync_state ≡ false
      → SyncedAs (wait_for_initial_sync os m rs)
  unfolding wait_for_initial_sync sleep
  wait_for_initial_sync-is_synced [] m h = h
  wait_for_initial_sync-is_synced (r ∷ rs) m h =
      go (poll os m false r).0 refl
        λ e. wait_for_initial_sync-is_synced rs (sleep_waiting os m r) (poll-is_synced m r h ∙ e)
    where
      go :
          (b : Bool)
          → (poll os m false r).0 ≡ b
          → ((poll os m false r).0 ≡ false
              → SyncedAs (wait_for_initial_sync os (sleep_waiting os m r) rs))
          → SyncedAs (
              if b
              then (true, (poll os m false r).1)
              else wait_for_initial_sync os (sleep_waiting os m r) rs)
      go true e rest = poll-is_synced m r h ∙ e
      go false e rest = rest e
