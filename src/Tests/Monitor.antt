-- ===== src/Tests/Monitor.antt =====
-- The monitor over the small system, for its properties.
use rs.Prelude.{ℕ, List, ◌*◌, ◌^◌, [], ◌∷◌, ◌≡◌, refl, inl, Option, none, some}
use rs.Syncd.{default_state, is_synced}
use rs.Syncd.Loops.{Round, Monitor, wait_for_initial_sync, monitor_loop}
use rs.Syncd.Marks.{IsExclusive, monitor_loop-IsExclusive}
use rs.Syncd.Waiting.{wait_for_initial_sync-is_synced}
use rs.Syncd.Complaints.{IsSpaced, complaints, complaints-IsSpaced}
use rs.Tests.Instance.{small, started}

-- The process of both instances exits in the first sleep.
abbrev rounds : List (Round small)
rounds =
    record { slave_now = 5; master_now = 6; slept = λ interval w. some 9 }
    ∷ record { slave_now = 10; master_now = 11; slept = λ interval w. w }
    ∷ []

abbrev pair : Monitor small
pair = record { master = started; slave = started; state = default_state; logs = []; world = none }

monitor_loop-IsExclusive_example : IsExclusive (monitor_loop small pair rounds).state
monitor_loop-IsExclusive_example = monitor_loop-IsExclusive small rounds pair (inl refl, inl refl)

wait_for_initial_sync-is_synced_example :
    is_synced (wait_for_initial_sync small pair rounds).1.state.slave_sync_state
    ≡ (wait_for_initial_sync small pair rounds).0
unfolding is_synced
wait_for_initial_sync-is_synced_example = wait_for_initial_sync-is_synced small rounds pair refl

abbrev down_rounds : List (Option ℕ × ℕ)
down_rounds = (some 9, 5) ∷ (none, 6) ∷ (none, 20 * 10 ^ 9) ∷ []

complaints-IsSpaced_example : IsSpaced none (complaints small default_state down_rounds)
complaints-IsSpaced_example = complaints-IsSpaced small down_rounds default_state
