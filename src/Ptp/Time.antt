-- ===== src/Ptp/Time.antt =====
-- src/ptp_phc/time.rs: timestamps of a hardware clock, as signed seconds and nanoseconds.
pub mod Laws
use rs.Prelude.{
  ℕ, ◌+◌, ◌*◌, ◌/◌, ◌%◌, ◌^◌, ◌≤◌, ◌<◌, ◌≡◌, Bool, Option, none, some, ltb, if◌then◌else◌,
}
use rs.Prelude.Int.{ℤ, pos, ◌+ℤ◌, ◌*ℤ◌, ◌≤ℤ◌, ltb_ℤ}
use rs.Prelude.Machine.{checked, saturated, div_euclid, rem_euclid, IsSigned}
use rs.Io.{Outcome, ok, err, panic}

abbrev pub nsec_per_sec : ℕ
nsec_per_sec = 1_000_000_000

-- An i64, and the `Nanoseconds` below one second.
pub record PtpTime : Type 0 where
  pub seconds : ℤ
  pub nanoseconds : ℕ

pub record IsValid (t : PtpTime) : Type 0 where
  pub seconds_fit : IsSigned 63 t.seconds
  pub normalized : t.nanoseconds < nsec_per_sec

pub data TimeError : Type 0 where
  duration_too_large : TimeError

-- `PtpTime::new`, of an i64 and a u32.
unfoldable pub new : ℤ → ℕ → Outcome TimeError PtpTime
new seconds nanos =
    if ltb nanos nsec_per_sec
    then ok (record { seconds = seconds; nanoseconds = nanos })
    else elim (checked 63 (seconds +ℤ pos (nanos / nsec_per_sec))) [
      | none ↦ panic
      | some secs ↦ ok (record { seconds = secs; nanoseconds = nanos % nsec_per_sec })
    ]

-- `PtpTime::new_unchecked`.
unfoldable pub new_unchecked : ℤ → ℕ → PtpTime
new_unchecked seconds nanoseconds = record { seconds = seconds; nanoseconds = nanoseconds }

-- `PtpTime::from_ns`, of an i64.
unfoldable pub from_ns : ℤ → PtpTime
from_ns ns = record {
  seconds = div_euclid ns nsec_per_sec;
  nanoseconds = rem_euclid ns nsec_per_sec % 2 ^ 32;
}

-- `PtpTime::from_ns_i128`.
unfoldable pub from_ns_i128 : ℤ → Option PtpTime
from_ns_i128 ns = elim (checked 63 (div_euclid ns nsec_per_sec)) [
  | none ↦ none
  | some seconds ↦
      some (record { seconds = seconds; nanoseconds = rem_euclid ns nsec_per_sec % 2 ^ 32 })
]

-- The ABI's `PtpClockTime`.
pub record PtpClockTime : Type 0 where
  pub sec : ℤ
  pub nsec : ℕ
  pub reserved : ℕ

unfoldable pub from_abi : PtpClockTime → PtpTime
from_abi time = record { seconds = time.sec; nanoseconds = time.nsec }

unfoldable pub into_abi : PtpTime → PtpClockTime
into_abi t = record { sec = t.seconds; nsec = t.nanoseconds; reserved = 0 }

-- `PtpTime::as_nanos`.
unfoldable pub as_nanos : PtpTime → ℤ
as_nanos t = saturated 127 (saturated 127 (t.seconds *ℤ pos nsec_per_sec) +ℤ pos t.nanoseconds)

-- The derived order: by the seconds, then by the nanoseconds.
unfoldable pub lt_time : PtpTime → PtpTime → Bool
lt_time a b =
    if ltb_ℤ a.seconds b.seconds
    then Bool.true
    else if ltb_ℤ b.seconds a.seconds
    then Bool.false
    else ltb a.nanoseconds b.nanoseconds

-- A `std::time::Duration`: u64 seconds, and nanoseconds below one second.
pub record Duration : Type 0 where
  pub secs : ℕ
  pub subsec_nanos : ℕ

unfoldable pub try_from_duration : Duration → Outcome TimeError PtpTime
try_from_duration value = elim (checked 63 (pos value.secs)) [
  | none ↦ err duration_too_large
  | some seconds ↦ ok (record { seconds = seconds; nanoseconds = value.subsec_nanos })
]
