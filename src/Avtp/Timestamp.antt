-- ===== src/Avtp/Timestamp.antt =====
-- src/avtp/timestamp.rs: the wrapping 32-bit presentation timestamp, which is kept as its raw u32.
pub mod Laws
use rs.Prelude.{ℕ, ◌+◌, ◌*◌, ◌%◌, ◌^◌, ◌<◌, ◌≡◌, List, [], ◌∷◌, none, some, ltb, if◌then◌else◌}
use rs.Prelude.Int.{ℤ, pos, ◌+ℤ◌, ◌-ℤ◌, ◌*ℤ◌}
use rs.Prelude.Machine.{div_euclid, as_u64, distance}
use rs.Io.{Outcome, ok, panic}
use rs.Ptp.Time.{PtpTime, TimeError, Duration, as_nanos, from_ns_i128}

abbrev pub AvtpTimestamp : Type 0
AvtpTimestamp = ℕ

abbrev pub avtp_wrap_ns : ℕ
avtp_wrap_ns = 2 ^ 32

unfoldable pub wrapping_add : AvtpTimestamp → ℕ → AvtpTimestamp
wrapping_add ts rhs = (ts + rhs) % 2 ^ 32

-- `AvtpTimestamp::from` a `Duration`, and a `PtpTime`.
unfoldable pub from_duration : Duration → AvtpTimestamp
from_duration d = (d.secs * 1_000_000_000 + d.subsec_nanos) % 2 ^ 32

unfoldable pub from_ptp_time : PtpTime → AvtpTimestamp
from_ptp_time t = (as_u64 t.seconds * 1_000_000_000 % 2 ^ 64 + t.nanoseconds) % 2 ^ 64 % 2 ^ 32

-- `Iterator::min_by_key`: the first of the least.
unfoldable pub min_by_key : (ℤ → ℕ) → ℤ → List ℤ → ℤ
min_by_key key x [] = x
min_by_key key x (y ∷ ys) = min_by_key key (if ltb (key y) (key x) then y else x) ys

-- The candidate next to the reference, in nanoseconds.
unfoldable pub expanded_ns : AvtpTimestamp → ℤ → ℤ
unfolding min_by_key
expanded_ns ts reference_ns =
    let base_cycles = div_euclid reference_ns avtp_wrap_ns in
    let base_candidate = base_cycles *ℤ pos avtp_wrap_ns +ℤ pos ts in
    min_by_key (λ candidate. distance candidate reference_ns) (base_candidate -ℤ pos avtp_wrap_ns)
      (base_candidate ∷ (base_candidate +ℤ pos avtp_wrap_ns) ∷ [])

unfoldable pub expand_near : AvtpTimestamp → PtpTime → Outcome TimeError PtpTime
expand_near ts reference_time = elim (from_ns_i128 (expanded_ns ts (as_nanos reference_time))) [
  | none ↦ panic
  | some t ↦ ok t
]
