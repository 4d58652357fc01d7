-- ===== src/Syncd/Marks.antt =====
-- src/bin/ptp-syncd.rs: which marks the monitor's state holds at once.
use rs.Prelude.{
  ℕ, ◌≡◌, refl, ◌⊎◌, inl, inr, Bool, true, false, ◌&&◌, List, [], ◌∷◌, none, if◌then◌else◌,
}
use rs.Proto.State.{PtpSnapshot, is_synchronized}
use rs.Proto.Instance.{
  Os, PtpQueryError, io, command_failed, invalid_utf8, not_ready, process_exited,
  process_not_running, parse_error, snapshot,
}
use rs.Syncd.{MonitorState, is_some, is_synced, Handled}
use rs.Syncd.Slave.{
  on_slave_snapshot, on_synchronized_slave_snapshot, on_unsynchronized_slave_snapshot,
  on_slave_process_down, on_slave_not_ready, on_slave_failure, log_unsynchronized_slave_status,
  handle_slave,
}
use rs.Syncd.Master.{
  on_master_snapshot_ok, on_master_snapshot_not_ready, on_master_process_down, on_master_failure,
  handle_master,
}
use rs.Syncd.Loops.{
  Round, Monitor, handle_slave_snapshot, handle_master_snapshot, poll, sleep, wait_for_initial_sync,
  monitor_loop, unsynchronized_poll_interval, synchronized_poll_interval,
}

-- A mark that a snapshot is awaited and a mark that the process is down are not there at once.
abbrev pub IsExclusive : MonitorState → Type 0
IsExclusive s =
    ((s.last_slave_pending_log ≡ none) ⊎ (s.last_slave_process_down_log ≡ none))
    × ((s.last_master_pending_log ≡ none) ⊎ (s.last_master_process_down_log ≡ none))

-- What holds of both branches holds of the test.
pub either : {A : Type 0} (P : A → Type 0) (b : Bool) {x y : A} → P x → P y → P (if b then x else y)
either P true p q = p
either P false p q = q

-- The master's marks are the same in both states.
record SameMaster (s t : MonitorState) : Type 0 where
  pending : t.last_master_pending_log ≡ s.last_master_pending_log
  down : t.last_master_process_down_log ≡ s.last_master_process_down_log

-- So are the slave's marks, and whether it was synchronized.
pub record SameSlave (s t : MonitorState) : Type 0 where
  pending : t.last_slave_pending_log ≡ s.last_slave_pending_log
  down : t.last_slave_process_down_log ≡ s.last_slave_process_down_log
  pub sync : t.slave_sync_state ≡ s.slave_sync_state

-- What a handler of the slave's snapshot, and of the master's, leaves of marks.
abbrev SlaveMarks : MonitorState → MonitorState → Type 0
SlaveMarks s t =
    ((t.last_slave_pending_log ≡ none) ⊎ (t.last_slave_process_down_log ≡ none)) × SameMaster s t

abbrev pub MasterMarks : MonitorState → MonitorState → Type 0
MasterMarks s t =
    ((t.last_master_pending_log ≡ none) ⊎ (t.last_master_process_down_log ≡ none)) × SameSlave s t

abbrev StatusMarks : MonitorState → MonitorState → Type 0
StatusMarks s t = (t.last_slave_pending_log ≡ s.last_slave_pending_log) × SameMaster s t

abbrev kept : {s : MonitorState} → StatusMarks s s
kept = (refl, record { pending = refl; down = refl })

status_marks :
    (s : MonitorState) (w u c : Bool) (now : ℕ)
    → StatusMarks s (log_unsynchronized_slave_status s w u c now).0
unfolding log_unsynchronized_slave_status
status_marks s w u c now =
    either (λ (h : Handled). StatusMarks s h.0) (u && c) kept
      (either (λ (h : Handled). StatusMarks s h.0) (w && is_synced s.slave_sync_state)
        (refl, record { pending = refl; down = refl })
        (either (λ (h : Handled). StatusMarks s h.0) w
          (refl, record { pending = refl; down = refl }) kept))

module _ (os : Os) where
  on_slave_snapshot-marks :
      (s : MonitorState) (p : PtpSnapshot os.F64) (w : Bool) (now : ℕ)
      → SlaveMarks s (on_slave_snapshot s p w now).1.0
  unfolding on_slave_snapshot on_synchronized_slave_snapshot on_unsynchronized_slave_snapshot
  on_slave_snapshot-marks s p w now =
      either (λ (h : Bool × Handled). SlaveMarks s h.1.0) (is_synchronized p)
        (inl refl, record { pending = refl; down = refl })
        (let (awaited, rest) =
            status_marks (record s { last_slave_pending_log = none }) w _ _ now in
          (inl awaited, record { pending = rest.pending; down = rest.down }))

  on_slave_process_down-marks :
      (s : MonitorState) (first again : _) (now : ℕ)
      → SlaveMarks s (on_slave_process_down s first again now).0
  unfolding on_slave_process_down
  on_slave_process_down-marks s first again now =
      either (λ (h : Handled). SlaveMarks s h.0) (is_some s.last_slave_process_down_log)
        (inl refl, record { pending = refl; down = refl })
        (inl refl, record { pending = refl; down = refl })

  handle_slave-marks :
      (s : MonitorState) (r : PtpQueryError os ⊎ PtpSnapshot os.F64) (w : Bool) (now : ℕ)
      → SlaveMarks s (handle_slave os s r w now).1.0
  unfolding handle_slave on_slave_not_ready on_slave_failure
  handle_slave-marks s (inr p) w now =
      let (marks, rest) =
        on_slave_snapshot-marks (record s { last_slave_process_down_log = none }) p w now in
      (marks, record { pending = rest.pending; down = rest.down })
  handle_slave-marks s (inl (not_ready d)) w now =
      (inr refl, record { pending = refl; down = refl })
  handle_slave-marks s (inl (process_exited x)) w now = on_slave_process_down-marks s _ _ now
  handle_slave-marks s (inl process_not_running) w now = on_slave_process_down-marks s _ _ now
  handle_slave-marks s (inl (io e)) w now = (inl refl, record { pending = refl; down = refl })
  handle_slave-marks s (inl (command_failed x)) w now =
      (inl refl, record { pending = refl; down = refl })
  handle_slave-marks s (inl (invalid_utf8 e)) w now =
      (inl refl, record { pending = refl; down = refl })
  handle_slave-marks s (inl (parse_error e)) w now =
      (inl refl, record { pending = refl; down = refl })

  on_master_process_down-marks :
      (s : MonitorState) (exited : Bool) (now : ℕ)
      → MasterMarks s (on_master_process_down s exited now).0
  unfolding on_master_process_down
  on_master_process_down-marks s exited now =
      either (λ (h : Handled). MasterMarks s h.0) (is_some s.last_master_process_down_log)
        (inl refl, record { pending = refl; down = refl; sync = refl })
        (inl refl, record { pending = refl; down = refl; sync = refl })

  pub handle_master-marks :
      (s : MonitorState) (r : PtpQueryError os ⊎ PtpSnapshot os.F64) (now : ℕ)
      → MasterMarks s (handle_master os s r now).0
  unfolding handle_master on_master_snapshot_ok on_master_snapshot_not_ready on_master_failure
  handle_master-marks s (inr p) now =
      (inl refl, record { pending = refl; down = refl; sync = refl })
  handle_master-marks s (inl (not_ready d)) now =
      either (λ (h : Handled). MasterMarks s h.0) (is_some s.last_master_pending_log)
        (inr refl, record { pending = refl; down = refl; sync = refl })
        (inr refl, record { pending = refl; down = refl; sync = refl })
  handle_master-marks s (inl (process_exited x)) now = on_master_process_down-marks s true now
  handle_master-marks s (inl process_not_running) now = on_master_process_down-marks s false now
  handle_master-marks s (inl (io e)) now =
      (inl refl, record { pending = refl; down = refl; sync = refl })
  handle_master-marks s (inl (command_failed x)) now =
      (inl refl, record { pending = refl; down = refl; sync = refl })
  handle_master-marks s (inl (invalid_utf8 e)) now =
      (inl refl, record { pending = refl; down = refl; sync = refl })
  handle_master-marks s (inl (parse_error e)) now =
      (inl refl, record { pending = refl; down = refl; sync = refl })

  -- The state that one round leaves is exclusive, whatever the state before it.
  poll-IsExclusive :
      (m : Monitor os) (w : Bool) (r : Round os) → IsExclusive (poll os m w r).1.state
  unfolding poll handle_slave_snapshot handle_master_snapshot
  poll-IsExclusive m w r =
      let asked = snapshot os m.slave m.world in
      let handled = (handle_slave os m.state asked.0 w r.slave_now).1.0 in
      let (slaves, same) = handle_slave-marks m.state asked.0 w r.slave_now in
      let (masters, rest) =
        handle_master-marks handled (snapshot os m.master asked.2).0 r.master_now in
      (rw (rest.pending, rest.down) slaves, masters)

  abbrev pub sleep_waiting : Monitor os → Round os → Monitor os
  sleep_waiting m r = sleep os (poll os m false r).1 r unsynchronized_poll_interval

  pub wait_for_initial_sync-IsExclusive :
      (rs : List (Round os)) (m : Monitor os)
      → IsExclusive m.state
      → IsExclusive (wait_for_initial_sync os m rs).1.state
  unfolding wait_for_initial_sync sleep
  wait_for_initial_sync-IsExclusive [] m e = e
  wait_for_initial_sync-IsExclusive (r ∷ rs) m e =
      either (λ (h : Bool × Monitor os). IsExclusive h.1.state) (poll os m false r).0
        (poll-IsExclusive m false r)
        (wait_for_initial_sync-IsExclusive rs (sleep_waiting m r) (poll-IsExclusive m false r))

  abbrev pub sleep_monitoring : Monitor os → Round os → Monitor os
  sleep_monitoring m r =
      let polled = poll os m true r in
      sleep os polled.1 r
        (if polled.0 then synchronized_poll_interval else unsynchronized_poll_interval)

  -- On every system and after all rounds before the shutdown: if at the start neither process has
  -- both the mark of a snapshot that is awaited and the mark of a process that is down, then after
  -- `monitor_loop` neither has.
  pub monitor_loop-IsExclusive :
      (rs : List (Round os)) (m : Monitor os)
      → IsExclusive m.state
      → IsExclusive (monitor_loop os m rs).state
  unfolding monitor_loop sleep
  monitor_loop-IsExclusive [] m e = e
  monitor_loop-IsExclusive (r ∷ rs) m e =
      monitor_loop-IsExclusive rs (sleep_monitoring m r) (poll-IsExclusive m true r)
