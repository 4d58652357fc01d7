-- ===== src/Syncd/Loops.antt =====
-- src/bin/ptp-syncd.rs: the loops that wait for synchronization and that monitor it.
use rs.Prelude.{ℕ, ◌*◌, ◌^◌, Bool, true, false, List, [], ◌∷◌, ◌++◌, if◌then◌else◌}
use rs.Proto.Instance.{Os, PtpInstance, snapshot}
use rs.Syncd.{MonitorState, Log}
use rs.Syncd.Slave.{handle_slave}
use rs.Syncd.Master.{handle_master}

abbrev pub unsynchronized_poll_interval : ℕ
unsynchronized_poll_interval = 10 ^ 9

abbrev pub synchronized_poll_interval : ℕ
synchronized_poll_interval = 5 * 10 ^ 9

module _ (os : Os) where
  open os use {World}

  -- One round in which `running` is still set: what the clock reads, and what becomes of the world
  -- in a sleep.
  pub record Round : Type 0 where
    pub slave_now : ℕ
    pub master_now : ℕ
    pub slept : ℕ → World → World

  -- What the loops change.
  pub record Monitor : Type 0 where
    pub master : PtpInstance os
    pub slave : PtpInstance os
    pub state : MonitorState
    pub logs : List Log
    pub world : World

  unfoldable pub handle_slave_snapshot : Monitor → Bool → ℕ → Bool × Monitor
  handle_slave_snapshot m warn_on_unsync now =
      let queried = snapshot os m.slave m.world in
      let handled = handle_slave os m.state queried.0 warn_on_unsync now in
      (
        handled.0,
        record m {
          slave = queried.1;
          world = queried.2;
          state = handled.1.0;
          logs = m.logs ++ handled.1.1;
        },
      )

  unfoldable pub handle_master_snapshot : Monitor → ℕ → Monitor
  handle_master_snapshot m now =
      let queried = snapshot os m.master m.world in
      let handled = handle_master os m.state queried.0 now in
      record m {
        master = queried.1;
        world = queried.2;
        state = handled.0;
        logs = m.logs ++ handled.1;
      }

  -- Both handlers of one round, and the sleep after them.
  unfoldable pub poll : Monitor → Bool → Round → Bool × Monitor
  poll m warn_on_unsync r =
      let slave = handle_slave_snapshot m warn_on_unsync r.slave_now in
      (slave.0, handle_master_snapshot slave.1 r.master_now)

  unfoldable pub sleep : Monitor → Round → ℕ → Monitor
  sleep m r interval = record m { world = r.slept interval m.world }

  -- The rounds are those before `running` is cleared.
  unfoldable pub wait_for_initial_sync : Monitor → List Round → Bool × Monitor
  wait_for_initial_sync m [] = (false, m)
  wait_for_initial_sync m (r ∷ rs) =
      let polled = poll m false r in
      let rest = wait_for_initial_sync (sleep polled.1 r unsynchronized_poll_interval) rs in
      if polled.0 then (true, polled.1) else rest

  unfoldable pub monitor_loop : Monitor → List Round → Monitor
  monitor_loop m [] = m
  monitor_loop m (r ∷ rs) =
      let polled = poll m true r in
      monitor_loop
        (sleep polled.1 r
          (if polled.0 then synchronized_poll_interval else unsynchronized_poll_interval))
        rs
