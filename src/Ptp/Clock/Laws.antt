-- ===== src/Ptp/Clock/Laws.antt =====
-- src/ptp_phc/clock.rs: clock numbers, requests for periodic output, pins, and opening a clock.
use rs.Prelude.{
  ℕ, zero, suc, ◌+◌, ◌-◌, ◌*◌, ◌/◌, ◌%◌, ◌^◌, ◌≤◌, ◌<◌, ◌≡◌, refl, sym, ap, ◌∙◌, ◌⊎◌, inl, inr,
  List, [], ◌∷◌, Option, none, some, length, arith, false,
}
use rs.Prelude.Int.{ℤ, pos, negsuc}
use rs.Prelude.Machine.{checked-some, div_euclid, rem_euclid}
use rs.Io.{ok}
use rs.Io.System.{Sys, proceed, ◌>>=◌, return, map_left, map_err}
use rs.Ptp.Time.{Duration, nsec_per_sec, from_ns, try_from_duration}
use rs.Ptp.Abi.{PtpClockCaps, Pin, Error}
use rs.Ptp.Clock.{
  Kernel, clock_id_from_fd, PtpClockHardware, raw_capabilities, pin_count, collect_pins, pins, pin,
  time_of, perout_for, request_duration, request_ns, enable_periodic_output,
  enable_periodic_output_ns, open_hardware, open_strict, or_system_time,
  open_with_system_time_fallback,
}

-- The file descriptor that the kernel reads off a clock's number: `~(clk >> 3)`, of an i32 in two's
-- complement that is negative.
abbrev pub fd_of : ℕ → ℕ
fd_of clk = 2 ^ 32 - 1 - (clk / 8 + 7 * 2 ^ 29)

-- For every file descriptor below 2 ^ 28, the clock's number, an i32 in two's complement, is
-- negative, ends in the bits of 3, and `~(number >> 3)` is the descriptor.
pub fd_of-clock_id_from_fd :
    (fd : ℕ)
    → fd < 2 ^ 28
    → (fd_of (clock_id_from_fd fd) ≡ fd)
      × (2 ^ 31 ≤ clock_id_from_fd fd)
      × (clock_id_from_fd fd < 2 ^ 32)
      × (clock_id_from_fd fd % 8 ≡ 3)
unfolding clock_id_from_fd
fd_of-clock_id_from_fd fd h = (omega arith, omega arith, omega arith, omega arith)

-- The nanoseconds of a duration.
abbrev pub nanos_of : Duration → ℕ
nanos_of d = d.secs * nsec_per_sec + d.subsec_nanos

-- A duration whose nanoseconds an i64 holds.
pub record IsShort (d : Duration) : Type 0 where
  pub subsec : d.subsec_nanos < nsec_per_sec
  pub short : nanos_of d < 2 ^ 63

from_ns-nanos_of :
    (d : Duration)
    → IsShort d
    → from_ns (pos (nanos_of d)) ≡ record { seconds = pos d.secs; nanoseconds = d.subsec_nanos }
unfolding from_ns div_euclid rem_euclid
from_ns-nanos_of d h =
    let q : nanos_of d / nsec_per_sec ≡ d.secs = omega (arith, h.subsec) in
    let r : nanos_of d % nsec_per_sec % 2 ^ 32 ≡ d.subsec_nanos = omega (arith, h.subsec) in
    λ i. record { seconds = pos (q i); nanoseconds = r i }

try_from_duration-nanos_of :
    (d : Duration) → IsShort d → try_from_duration d ≡ ok (from_ns (pos (nanos_of d)))
unfolding try_from_duration
try_from_duration-nanos_of d h =
    rw
      (
        try_from_duration,
        checked-some 63 (pos d.secs) (omega (arith, h.short)),
        from_ns-nanos_of d h,
      )
      refl

module _ (k : Kernel) where
  open k use {World, OsError, Errno}

  time_of-nanos_of : (d : Duration) → IsShort d → time_of k d ≡ inr (from_ns (pos (nanos_of d)))
  unfolding time_of
  time_of-nanos_of d h = rw (time_of, try_from_duration-nanos_of d h) refl

  abbrev pub in_nanos : Option Duration → Option ℤ
  in_nanos none = none
  in_nanos (some d) = some (pos (nanos_of d))

  abbrev pub IsShortPhase : Option Duration → Type 0
  IsShortPhase none = Unit {0}
  IsShortPhase (some d) = IsShort d

  request_duration-nanos_of :
      (c : PtpClockHardware k) (r : _) (phase : Option Duration) (w : World)
      → IsShortPhase phase
      → request_duration k c r phase w ≡ request_ns k c r (in_nanos phase) w
  unfolding request_duration request_ns ◌>>=◌ proceed
  request_duration-nanos_of c r none w h = refl
  request_duration-nanos_of c r (some d) w h = rw (time_of-nanos_of d h) refl

  -- On every kernel and in every world, for a period and a phase, if any, whose nanoseconds fit an
  -- i64: enabling periodic output by durations makes the same requests with the same result as
  -- enabling it by their nanoseconds.
  pub enable_periodic_output-nanos_of :
      (c : PtpClockHardware k) (channel : ℕ) (period : Duration) (phase : Option Duration)
      (w : World)
      → IsShort period
      → IsShortPhase phase
      → enable_periodic_output k c channel period phase w
        ≡ enable_periodic_output_ns k c channel (pos (nanos_of period)) (in_nanos phase) w
  unfolding enable_periodic_output enable_periodic_output_ns ◌>>=◌ proceed
  enable_periodic_output-nanos_of c channel period phase w h p = rw (time_of-nanos_of period h) (
      request_duration-nanos_of c (perout_for k channel (from_ns (pos (nanos_of period)))) phase w
        p)

  -- A chain that succeeds passed through a success of its first step.
  proceed_ok :
      {A B : Type 0} (f : A → Sys World (Error OsError Errno) B)
      (r : (Error OsError Errno ⊎ A) × World) {b : B} {v : World}
      → proceed f r ≡ (inr b, v)
      → (a : A) × (u : World) × (r ≡ (inr a, u)) × (f a u ≡ (inr b, v))
  unfolding proceed
  proceed_ok f (inl e, w) h = absurd (cc)
  proceed_ok f (inr a, w) h = (a, w, refl, h)

  length-collect_pins :
      (c : PtpClockHardware k) (index n : ℕ) (w : World) {ps : List Pin} {v : World}
      → collect_pins k c index n w ≡ (inr ps, v)
      → length ps ≡ n
  unfolding collect_pins ◌>>=◌
  length-collect_pins c index zero w {ps} e = let none_left : [] ≡ ps = cc in rw (← none_left) refl
  length-collect_pins c index (suc n) w {ps} {v} e =
      let (first, u, here, there) = proceed_ok _ (pin k c index w) {b = ps} {v = v} e in
      let (rest, t, more, all) =
        proceed_ok (λ rest. return (first ∷ rest)) (collect_pins k c (index + 1) n u) {b = ps}
          {v = v} there in
      let whole : first ∷ rest ≡ ps = cc in
      rw (← whole) (ap suc (length-collect_pins c (index + 1) n u {ps = rest} {v = t} more))

  count_ok : (z : ℤ) {n : ℕ} → pin_count k z ≡ inr n → z ≡ pos n
  unfolding pin_count
  count_ok (pos m) e = cc
  count_ok (negsuc m) e = absurd (cc)

  -- On every kernel: if `pins` returns some pins, then the query of the capabilities succeeded,
  -- and the pins are as many as it reported.
  pub length-pins :
      (c : PtpClockHardware k) (w v : World) (ps : List Pin)
      → pins k c w ≡ (inr ps, v)
      → (caps : PtpClockCaps) × (u : World) × (raw_capabilities k c w ≡ (inr caps, u))
        × (caps.n_pins ≡ pos (length ps))
  unfolding pins ◌>>=◌
  length-pins c w v ps e =
      let (caps, u, here, there) = proceed_ok _ (raw_capabilities k c w) {b = ps} {v = v} e in
      let (n, t, counted, collected) =
        proceed_ok (collect_pins k c 0) (pin_count k caps.n_pins, u) {b = ps} {v = v} there in
      let count : pin_count k caps.n_pins ≡ inr n = ap (λ r. r.0) counted in
      (
        caps,
        u,
        here,
        count_ok caps.n_pins count
            ∙ ap pos (sym (length-collect_pins c 0 n t {ps = ps} {v = v} collected)),
      )

  -- On every kernel, for every path and in every world in which opening the device succeeds, or
  -- fails with another error than that it is not found: opening with the fallback has the same
  -- result as opening strictly, and leaves the same world.
  pub open_with_system_time_fallback-open_strict :
      (path : List ℕ) (w : World)
      → ((e : OsError) → (k.open_read_write path w).0 ≡ inl e → k.is_not_found e ≡ false)
      → open_with_system_time_fallback k path w ≡ open_strict k path w
  unfolding open_with_system_time_fallback or_system_time open_strict open_hardware ◌>>=◌ proceed
      map_err map_left
  open_with_system_time_fallback-open_strict path w found = go (k.open_read_write path w) refl
    where
      go :
          (r : (OsError ⊎ k.Device) × World)
          → k.open_read_write path w ≡ r
          → open_with_system_time_fallback k path w ≡ open_strict k path w
      go (inr d, u) e = rw e refl
      go (inl x, u) e = rw (e, found x (ap (λ r. r.0) e)) refl
