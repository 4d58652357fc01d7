-- ===== src/Syncd/Complaints.antt =====
-- src/bin/ptp-syncd.rs: how often the monitor says that the slave's process is down.
use rs.Prelude.{
  ℕ, ◌-◌, ◌≤◌, ◌≡◌, refl, ◌⊎◌, inl, inr, Bool, true, false, List, [], ◌∷◌, Option, none, some,
  arith, ltb, if◌then◌else◌,
}
use rs.Proto.Instance.{Os, PtpQueryError, process_exited, process_not_running}
use rs.Syncd.{MonitorState, should_emit_periodic, Handled, Log, degraded_status_log_interval}
use rs.Syncd.Slave.{on_slave_process_down, handle_slave}

abbrev is_nonempty : List Log → Bool
is_nonempty [] = false
is_nonempty (l ∷ ls) = true

abbrev pub IsAfter : Option ℕ → ℕ → Type 0
IsAfter none now = Unit {0}
IsAfter (some last) now = degraded_status_log_interval ≤ now - last

-- Each instant is ten seconds or more after the one before it, the first after `last`.
abbrev pub IsSpaced : Option ℕ → List ℕ → Type 0
IsSpaced last [] = Unit {0}
IsSpaced last (t ∷ ts) = IsAfter last t × IsSpaced (some t) ts

-- What a round that finds the process down logs, and which mark it leaves.
abbrev Complains : Option ℕ → ℕ → Handled → Type 0
Complains last now h =
    (IsAfter last now × (is_nonempty h.1 ≡ true) × (h.0.last_slave_process_down_log ≡ some now))
    ⊎ ((is_nonempty h.1 ≡ false) × (h.0.last_slave_process_down_log ≡ last))

on_slave_process_down-Complains :
    (s : MonitorState) (last : Option ℕ) (first again : _) (now : ℕ)
    → Complains last now
        (on_slave_process_down (record s { last_slave_process_down_log = last }) first again now)
unfolding on_slave_process_down should_emit_periodic
on_slave_process_down-Complains s none first again now = inl (tt, refl, refl)
on_slave_process_down-Complains s (some p) first again now =
    go (ltb (now - p) degraded_status_log_interval) refl
  where
    go :
        (b : Bool)
        → ltb (now - p) degraded_status_log_interval ≡ b
        → Complains (some p) now (
            on_slave_process_down
              (record s { last_slave_process_down_log = some p })
              first
              again
              now)
    go true e = inr (
      rw (on_slave_process_down, should_emit_periodic, e) refl,
      rw (on_slave_process_down, should_emit_periodic, e) refl,
    )
    go false e = inl (
      ground arith,
      rw (on_slave_process_down, should_emit_periodic, e) refl,
      rw (on_slave_process_down, should_emit_periodic, e) refl,
    )

module _ (os : Os) where
  -- How a down process shows: exited with a status, or not running.
  abbrev pub down : Option os.Status → PtpQueryError os
  down none = process_not_running
  down (some status) = process_exited status

  -- The instants at which rounds that find the slave's process down log something.
  unfoldable pub complaints : MonitorState → List (Option os.Status × ℕ) → List ℕ
  complaints s [] = []
  complaints s ((status, now) ∷ rest) =
      let handled = handle_slave os s (inl (down status)) true now in
      let later = complaints handled.1.0 rest in
      if is_nonempty handled.1.1 then now ∷ later else later

  -- One round more before rounds that are spaced.
  IsSpaced-more :
      (last : Option ℕ) (now : ℕ) (h : Handled) (rest : List (Option os.Status × ℕ))
      → Complains last now h
      → IsSpaced h.0.last_slave_process_down_log (complaints h.0 rest)
      → IsSpaced last (if is_nonempty h.1 then now ∷ complaints h.0 rest else complaints h.0 rest)
  IsSpaced-more last now h rest (inl (after, some_log, mark)) spaced =
      rw some_log (after, (rw (← mark) spaced))
  IsSpaced-more last now h rest (inr (no_log, mark)) spaced = rw (no_log, ← mark) spaced

  -- In successive rounds that all find the slave's process down, exited or not running, whatever
  -- the clock reads: between two rounds that log something, and between the mark at the start and
  -- the first one, the clock has gone on by ten seconds or more.
  pub complaints-IsSpaced :
      (rest : List (Option os.Status × ℕ)) (s : MonitorState)
      → IsSpaced s.last_slave_process_down_log (complaints s rest)
  unfolding complaints handle_slave
  complaints-IsSpaced [] s = tt
  complaints-IsSpaced ((none, now) ∷ rest) s =
      IsSpaced-more s.last_slave_process_down_log now _ rest
        (on_slave_process_down-Complains s s.last_slave_process_down_log _ _ now)
        (complaints-IsSpaced rest _)
  complaints-IsSpaced ((some status, now) ∷ rest) s =
      IsSpaced-more s.last_slave_process_down_log now _ rest
        (on_slave_process_down-Complains s s.last_slave_process_down_log _ _ now)
        (complaints-IsSpaced rest _)
