-- ===== src/Avtp/Synchronizer.antt =====
-- src/avtp/synchronizer.rs: the clock that interpolates between readings of a PTP clock. Instants
-- are nanoseconds of the local monotonic clock.
pub mod Laws
use rs.Prelude.{
  ℕ, ◌+◌, ◌-◌, ◌*◌, ◌/◌, ◌%◌, ◌^◌, ◌≡◌, Bool, true, false, Option, none, some, ltb, leb, ◌==◌,
  if◌then◌else◌,
}
use rs.Prelude.Int.{ℤ, pos, negsuc, ◌+ℤ◌, ◌-ℤ◌}
use rs.Prelude.Machine.{checked}
use rs.Io.{Outcome, ok, err, panic, bind}
use rs.Ptp.Time.{PtpTime, Duration, as_nanos, from_ns_i128}

-- The operations of f64 that the loop uses, as far as it uses them; `literal n d` is the float
-- nearest to n / d, and the casts to integers saturate.
pub record Float : Type 1 where
  pub F : Type 0
  pub literal : ℕ → ℕ → F
  pub from_ns : ℕ → F
  pub from_int : ℤ → F
  pub round_i128 : F → ℤ
  pub to_i64 : F → ℤ
  pub add : F → F → F
  pub sub : F → F → F
  pub mul : F → F → F
  pub div : F → F → F
  pub neg : F → F
  pub abs : F → F
  pub gt : F → F → Bool
  pub clamp : F → F → F → F

pub data ClockError (SourceError : Type 0) : Type 0 where
  ptp_clock : SourceError → ClockError SourceError
  negative_elapsed : ℤ → ClockError SourceError
  duration_overflow monotonicity_limit : ClockError SourceError

pub record PtpSynchronizedClock (Source F : Type 0) : Type 0 where
  pub clock : Source
  pub initial_ptp_time : PtpTime
  pub last_ptp_time : PtpTime
  pub last_ptp_instant : ℕ
  pub frequency_adjustment : F
  pub phase_offset_ns : ℤ
  pub last_returned : Duration
  -- In nanoseconds.
  pub resync_interval : ℕ

-- `Duration::as_nanos`, the derived `<=`, and `checked_add` of one nanosecond.
abbrev pub duration_nanos : Duration → ℕ
duration_nanos d = d.secs * 1_000_000_000 + d.subsec_nanos

unfoldable pub le_duration : Duration → Duration → Bool
le_duration a b =
    if ltb a.secs b.secs
    then true
    else if ltb b.secs a.secs
    then false
    else leb a.subsec_nanos b.subsec_nanos

unfoldable pub add_nano : Duration → Option Duration
add_nano d =
    if ltb (d.subsec_nanos + 1) 1_000_000_000
    then some (record { secs = d.secs; subsec_nanos = d.subsec_nanos + 1 })
    else if ltb (d.secs + 1) (2 ^ 64)
    then some (record { secs = d.secs + 1; subsec_nanos = d.subsec_nanos + 1 - 1_000_000_000 })
    else none

unfoldable pub i128_nanos_to_duration : {E : Type 0} → ℤ → Outcome (ClockError E) Duration
i128_nanos_to_duration (negsuc n) = err (negative_elapsed (negsuc n))
i128_nanos_to_duration (pos n) =
    if ltb (n / 1_000_000_000) (2 ^ 64)
    then ok (record { secs = n / 1_000_000_000; subsec_nanos = n % 1_000_000_000 })
    else err duration_overflow

unfoldable pub checked_or_overflow : {E : Type 0} → ℤ → Outcome (ClockError E) ℤ
checked_or_overflow z = elim (checked 127 z) [ none ↦ err duration_overflow | some y ↦ ok y ]

module _ {Source SourceError : Type 0} (f : Float)
    (time : Source → Source × Outcome SourceError PtpTime) where
  -- The interpolated time since the initialization.
  unfoldable pub interpolated :
      PtpSynchronizedClock Source f.F → ℕ → Outcome (ClockError SourceError) Duration
  interpolated s now =
      let instant_ns = f.from_ns (now - s.last_ptp_instant) in
      let adjusted_instant_ns = f.round_i128 (f.mul instant_ns s.frequency_adjustment) in
      let ptp_base_ns = as_nanos s.last_ptp_time -ℤ as_nanos s.initial_ptp_time in
      bind (checked_or_overflow (ptp_base_ns +ℤ adjusted_instant_ns)) λ sum.
        bind (checked_or_overflow (sum +ℤ s.phase_offset_ns))
          λ elapsed_ns. i128_nanos_to_duration elapsed_ns

  -- The duration if it is later than the last one, or else one nanosecond after that.
  unfoldable pub enforced : Duration → Duration → Outcome (ClockError SourceError) Duration
  enforced last duration =
      if le_duration duration last
      then (elim (add_nano last) [ none ↦ err monotonicity_limit | some d ↦ ok d ])
      else ok duration

  unfoldable pub compute_elapsed :
      PtpSynchronizedClock Source f.F
      → ℕ
      → PtpSynchronizedClock Source f.F × Outcome (ClockError SourceError) Duration
  compute_elapsed s now = elim (bind (interpolated s now) (enforced s.last_returned)) [
    | ok d ↦ (record s { last_returned = d }, ok d)
    | err e ↦ (s, err e)
    | panic ↦ (s, panic)
  ]

  -- The loop's adjustment to a reading of the clock.
  unfoldable pub adjusted :
      PtpSynchronizedClock Source f.F → ℕ → PtpTime → PtpSynchronizedClock Source f.F
  adjusted s now current_ptp =
      let instant_ns = f.from_ns (now - s.last_ptp_instant) in
      let ptp_diff_ns = f.from_int (as_nanos current_ptp -ℤ as_nanos s.last_ptp_time) in
      let one = f.literal 1 1 in
      let alpha = f.literal 1 10 in
      let measured =
        f.add (f.mul (f.sub one alpha) s.frequency_adjustment)
          (f.mul alpha (f.div ptp_diff_ns instant_ns)) in
      let frequency =
        if f.gt instant_ns (f.literal 1_000_000 1)
        then f.clamp measured (f.literal 999 1000) (f.literal 1001 1000)
        else s.frequency_adjustment in
      let phase_error_ns = f.sub ptp_diff_ns (f.mul instant_ns frequency) in
      let limit = f.from_int (pos 100_000) in
      let new_phase_offset =
        f.add (f.mul (f.sub one alpha) (f.from_int s.phase_offset_ns))
          (f.mul alpha phase_error_ns) in
      let jump = f.gt (f.abs phase_error_ns) (f.literal 1_000_000 1) in
      record s {
        frequency_adjustment = if jump then one else frequency;
        phase_offset_ns =
            if jump then pos 0 else f.to_i64 (f.clamp new_phase_offset (f.neg limit) limit);
        last_ptp_time = current_ptp;
        last_ptp_instant = now;
      }

  unfoldable pub resync_ptp :
      PtpSynchronizedClock Source f.F
      → ℕ
      → PtpSynchronizedClock Source f.F × Outcome (ClockError SourceError) (Unit {0})
  resync_ptp s now = go (time s.clock)
    where
      go :
          Source × Outcome SourceError PtpTime
          → PtpSynchronizedClock Source f.F × Outcome (ClockError SourceError) (Unit {0})
      go (c, ok current_ptp) = (adjusted (record s { clock = c }) now current_ptp, ok tt)
      go (c, err e) = (record s { clock = c }, err (ptp_clock e))
      go (c, panic) = (record s { clock = c }, panic)

  unfoldable pub elapsed :
      PtpSynchronizedClock Source f.F
      → ℕ
      → PtpSynchronizedClock Source f.F × Outcome (ClockError SourceError) Duration
  elapsed s now =
      if leb s.resync_interval (now - s.last_ptp_instant)
      then after (resync_ptp s now)
      else compute_elapsed s now
    where
      after :
          PtpSynchronizedClock Source f.F × Outcome (ClockError SourceError) (Unit {0})
          → PtpSynchronizedClock Source f.F × Outcome (ClockError SourceError) Duration
      after (s', ok u) = compute_elapsed s' now
      after (s', err e) = (s', err e)
      after (s', panic) = (s', panic)

  unfoldable pub elapsed_no_resync :
      PtpSynchronizedClock Source f.F
      → ℕ
      → PtpSynchronizedClock Source f.F × Outcome (ClockError SourceError) Duration
  elapsed_no_resync s now = compute_elapsed s now

  -- The initial time and the elapsed time.
  unfoldable pub absolute : PtpTime → Duration → Outcome (ClockError SourceError) PtpTime
  absolute initial d =
      bind (checked_or_overflow (as_nanos initial +ℤ pos (duration_nanos d))) λ absolute_ns.
        elim (from_ns_i128 absolute_ns) [ none ↦ err duration_overflow | some t ↦ ok t ]

  unfoldable pub ptp_time :
      PtpSynchronizedClock Source f.F
      → ℕ
      → PtpSynchronizedClock Source f.F × Outcome (ClockError SourceError) PtpTime
  ptp_time s now = let (s', o) = elapsed s now in (s', bind o λ d. absolute s'.initial_ptp_time d)

  unfoldable pub with_resync_interval :
      Source → ℕ → ℕ → Outcome (ClockError SourceError) (PtpSynchronizedClock Source f.F)
  with_resync_interval clock resync_interval now = go (time clock)
    where
      go :
          Source × Outcome SourceError PtpTime
          → Outcome (ClockError SourceError) (PtpSynchronizedClock Source f.F)
      go (c, ok initial) = ok (record {
        clock = c;
        initial_ptp_time = initial;
        last_ptp_time = initial;
        last_ptp_instant = now;
        frequency_adjustment = f.literal 1 1;
        phase_offset_ns = pos 0;
        last_returned = record { secs = 0; subsec_nanos = 0 };
        resync_interval = resync_interval;
      })
      go (c, err e) = err (ptp_clock e)
      go (c, panic) = panic
