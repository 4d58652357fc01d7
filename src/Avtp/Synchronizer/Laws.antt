-- ===== src/Avtp/Synchronizer/Laws.antt =====
-- What the synchronized clock promises (src/avtp/synchronizer.rs).
use rs.Prelude.{
  ℕ, ◌+◌, ◌-◌, ◌<◌, ◌≡◌, ◌≢◌, ◌⊎◌, inl, inr, refl, sym, ◌∙◌, Bool, true, false, List, [], ◌∷◌,
  Option, none, some, arith, leb, Bool-cases,
}
use mathlib.Core.Path.{subst}
use rs.Prelude.Int.{ℤ, pos, negsuc, ◌+ℤ◌, ◌-ℤ◌}
use rs.Io.{Outcome, ok, err, panic, bind}
use rs.Io.Outcomes.{bind_ok, ok_unique}
use rs.Ptp.Time.{PtpTime, Duration, as_nanos}
use rs.Avtp.Synchronizer.{
  Float, ClockError, PtpSynchronizedClock, duration_nanos, le_duration, add_nano,
  i128_nanos_to_duration, checked_or_overflow, monotonicity_limit, interpolated, enforced,
  compute_elapsed, adjusted, resync_ptp, elapsed,
}

-- Less than a second in the nanoseconds.
abbrev pub IsNormal : Duration → Type 0
IsNormal d = d.subsec_nanos < 1_000_000_000

not_le :
    (a b : Duration)
    → IsNormal a
    → IsNormal b
    → le_duration a b ≡ false
    → duration_nanos b < duration_nanos a
unfolding le_duration
not_le a b ha hb h = ground arith

add_nano-some :
    (a d : Duration)
    → IsNormal a
    → add_nano a ≡ some d
    → (duration_nanos d ≡ duration_nanos a + 1) × IsNormal d
unfolding add_nano
add_nano-some a d h e = ground arith

duration_IsNormal :
    {E : Type 0} (z : ℤ) (d : Duration) → i128_nanos_to_duration {E = E} z ≡ ok d → IsNormal d
unfolding i128_nanos_to_duration
duration_IsNormal (negsuc n) d e = absurd cc
duration_IsNormal (pos n) d e = ground arith

module _ {Source SourceError : Type 0} (f : Float)
    (time : Source → Source × Outcome SourceError PtpTime) where
  enforced_later :
      (last duration d : Duration)
      → IsNormal last
      → IsNormal duration
      → enforced f time last duration ≡ ok d
      → (duration_nanos last < duration_nanos d) × IsNormal d
  unfolding enforced
  enforced_later last duration d hl hd e = go (le_duration duration last) refl (add_nano last) refl
    where
      go :
          (b : Bool)
          → le_duration duration last ≡ b
          → (o : Option Duration) → add_nano last ≡ o
          → (duration_nanos last < duration_nanos d) × IsNormal d
      go false q o k =
          let same : duration ≡ d =
            ok_unique (enforced f time last duration) (unfold enforced in rw (enforced, q) refl)
              e in
          subst (λ x. (duration_nanos last < duration_nanos x) × IsNormal x) same
            (not_le duration last hd hl q, hd)
      go true q none k =
          let refused : enforced f time last duration ≡ err monotonicity_limit =
            unfold enforced in rw (enforced, q) (rw k refl) in
          absurd (cc (refused, e))
      go true q (some x) k =
          let same : x ≡ d =
            ok_unique (enforced f time last duration)
              (unfold enforced in rw (enforced, q) (rw k refl)) e in
          let (later, normal) = add_nano-some last x hl k in
          subst (λ y. (duration_nanos last < duration_nanos y) × IsNormal y) same
            (omega (arith, later), normal)

  summed :
      (o : Outcome (ClockError SourceError) ℤ) (p : ℤ → Outcome (ClockError SourceError) ℤ)
      (d : Duration)
      → bind o (λ sum. bind (p sum) λ nanos. i128_nanos_to_duration nanos) ≡ ok d
      → IsNormal d
  summed o p d e =
      let (sum, _, rest) =
        bind_ok o (λ sum. bind (p sum) λ nanos. i128_nanos_to_duration nanos) e in
      let (nanos, _, last) = bind_ok (p sum) (λ nanos. i128_nanos_to_duration nanos) rest in
      duration_IsNormal nanos d last

  interpolated-IsNormal :
      (s : PtpSynchronizedClock Source f.F) (now : ℕ) (d : Duration)
      → interpolated f time s now ≡ ok d
      → IsNormal d
  unfolding interpolated
  interpolated-IsNormal s now d e =
      summed
        (checked_or_overflow (
          as_nanos s.last_ptp_time
          -ℤ as_nanos s.initial_ptp_time
          +ℤ f.round_i128 (f.mul (f.from_ns (now - s.last_ptp_instant)) s.frequency_adjustment)))
        (λ sum. checked_or_overflow (sum +ℤ s.phase_offset_ns)) d e

  -- The outcome of a call: a later time that is remembered, or no time and nothing forgotten.
  abbrev pub Advances :
      Duration
      → PtpSynchronizedClock Source f.F × Outcome (ClockError SourceError) Duration
      → Type 0
  Advances last (s, o) =
      ((d : Duration) × (o ≡ ok d)
        × (duration_nanos last < duration_nanos d)
        × IsNormal d
        × (s.last_returned ≡ d))
      ⊎ (((d : Duration) → o ≢ ok d) × (s.last_returned ≡ last))

  compute_elapsed-Advances :
      (s : PtpSynchronizedClock Source f.F) (now : ℕ)
      → IsNormal s.last_returned
      → Advances s.last_returned (compute_elapsed f time s now)
  unfolding compute_elapsed
  compute_elapsed-Advances s now h =
      go (bind (interpolated f time s now) (enforced f time s.last_returned)) refl
    where
      go :
          (o : Outcome (ClockError SourceError) Duration)
          → bind (interpolated f time s now) (enforced f time s.last_returned) ≡ o
          → Advances s.last_returned (elim o [
            | ok d ↦ (record s { last_returned = d }, ok d)
            | err e ↦ (s, err e)
            | panic ↦ (s, panic)
          ])
      go (err x) e = inr (λ d k. cc, refl)
      go panic e = inr (λ d k. cc, refl)
      go (ok d) e =
          let (duration, q, k) =
            bind_ok (interpolated f time s now) (enforced f time s.last_returned) e in
          let (later, normal) =
            enforced_later s.last_returned duration d h (interpolated-IsNormal s now duration q)
              k in
          inl (d, refl, later, normal, refl)

  resync_last :
      (s : PtpSynchronizedClock Source f.F) (now : ℕ)
      → (resync_ptp f time s now).0.last_returned ≡ s.last_returned
  unfolding resync_ptp adjusted
  resync_last s now = go (time s.clock) refl
    where
      go :
          (p : Source × Outcome SourceError PtpTime)
          → time s.clock ≡ p
          → (resync_ptp f time s now).0.last_returned ≡ s.last_returned
      go (c, ok t) e = unfold resync_ptp adjusted in rw (resync_ptp, e) refl
      go (c, err x) e = unfold resync_ptp in rw (resync_ptp, e) refl
      go (c, panic) e = unfold resync_ptp in rw (resync_ptp, e) refl

  -- Where the last returned time has less than a second in its nanoseconds, a call of `elapsed`
  -- either returns a strictly later such time and remembers it, or returns no time and keeps the
  -- last one.
  pub elapsed-Advances :
      (s : PtpSynchronizedClock Source f.F) (now : ℕ)
      → IsNormal s.last_returned
      → Advances s.last_returned (elapsed f time s now)
  unfolding elapsed
  elapsed-Advances s now h = elim (Bool-cases (leb s.resync_interval (now - s.last_ptp_instant))) [
    | inl q ↦ rw (elapsed, q) (resynced (resync_ptp f time s now) (resync_last s now))
    | inr q ↦ rw (elapsed, q) (compute_elapsed-Advances s now h)
  ]
    where
      resynced :
          (p : PtpSynchronizedClock Source f.F × Outcome (ClockError SourceError) (Unit {0}))
          → p.0.last_returned ≡ s.last_returned
          → Advances s.last_returned (elim p.1 [
            | ok u ↦ compute_elapsed f time p.0 now
            | err e ↦ (p.0, err e)
            | panic ↦ (p.0, panic)
          ])
      resynced (s', ok u) e =
          subst (λ l. Advances l (compute_elapsed f time s' now)) e
            (compute_elapsed-Advances s' now (subst IsNormal (sym e) h))
      resynced (s', err x) e = inr (λ d k. cc, e)
      resynced (s', panic) e = inr (λ d k. cc, e)

  -- The times that calls at these instants return.
  unfoldable pub returned : PtpSynchronizedClock Source f.F → List ℕ → List Duration
  returned s [] = []
  returned s (now ∷ instants) =
      let (s', o) = elapsed f time s now in
      let rest = returned s' instants in elim o [ ok d ↦ d ∷ rest | err _ ↦ rest | panic ↦ rest ]

  abbrev pub Ascending : Duration → List Duration → Type 0
  Ascending last [] = Unit
  Ascending last (d ∷ ds) = (duration_nanos last < duration_nanos d) × Ascending d ds

  -- Whatever the source and the float operations give, the times that successive calls of
  -- `elapsed` return at any instants are strictly ascending and later than the last one returned
  -- before, where that one has less than a second in its nanoseconds; calls that fail are left
  -- out.
  pub returned-Ascending :
      (s : PtpSynchronizedClock Source f.F) (instants : List ℕ)
      → IsNormal s.last_returned
      → Ascending s.last_returned (returned s instants)
  unfolding returned
  returned-Ascending s [] h = tt
  returned-Ascending s (now ∷ instants) h =
      go (elapsed f time s now) (elapsed-Advances s now h)
        (returned-Ascending (elapsed f time s now).0 instants)
    where
      go :
          (p : PtpSynchronizedClock Source f.F × Outcome (ClockError SourceError) Duration)
          → Advances s.last_returned p
          → (IsNormal p.0.last_returned → Ascending p.0.last_returned (returned p.0 instants))
          → Ascending s.last_returned (elim p.1 [
            | ok d ↦ d ∷ returned p.0 instants
            | err _ ↦ returned p.0 instants
            | panic ↦ returned p.0 instants
          ])
      go (s', ok d) (inl (x, e, later, normal, kept)) ih =
          let same : d ≡ x = ok_unique {E = ClockError SourceError} _ refl e in
          let last : s'.last_returned ≡ d = kept ∙ sym same in
          (
            subst (λ y. duration_nanos s.last_returned < duration_nanos y) (sym same) later,
            subst (λ y. Ascending y (returned s' instants)) last
                (ih (subst IsNormal (sym kept) normal)),
          )
      go (s', ok d) (inr (n, kept)) ih = absurd (n d refl)
      go (s', err x) (inl (d, e, _, _, _)) ih = absurd cc
      go (s', err x) (inr (n, kept)) ih =
          subst (λ l. Ascending l (returned s' instants)) kept (ih (subst IsNormal (sym kept) h))
      go (s', panic) (inl (d, e, _, _, _)) ih = absurd cc
      go (s', panic) (inr (n, kept)) ih =
          subst (λ l. Ascending l (returned s' instants)) kept (ih (subst IsNormal (sym kept) h))
