-- ===== src/Tests/Time.antt =====
-- Clock times and presentation timestamps at concrete values (src/ptp_phc/time.rs,
-- src/avtp/timestamp.rs).
use rs.Prelude.{◌^◌, ◌<◌, ◌≤◌, ◌≡◌, refl, none, some, arith}
use rs.Prelude.Int.{ℤ, pos, negsuc, ◌+ℤ◌, ◌*ℤ◌}
use rs.Prelude.Machine.{distance, rem_euclid, div_euclid, checked, fits, saturated}
use rs.Io.{ok}
use rs.Ptp.Time.{PtpTime, IsValid, from_ns_i128, as_nanos}
use rs.Ptp.Time.Laws.{from_ns_i128-as_nanos}
use rs.Avtp.Timestamp.{from_ptp_time, expanded_ns, expand_near}
use rs.Avtp.Timestamp.Laws.{from_ptp_time-mod, expanded_ns-nearest, expand_near-from_ptp_time}

-- Three seconds and a half before the epoch, and five seconds after it.
abbrev before : PtpTime
before = record { seconds = negsuc 3; nanoseconds = 500_000_000 }

abbrev after : PtpTime
after = record { seconds = pos 5; nanoseconds = 7 }

before-IsValid : IsValid before
before-IsValid = record { seconds_fit = omega arith; normalized = omega arith }

after-IsValid : IsValid after
after-IsValid = record { seconds_fit = omega arith; normalized = omega arith }

from_ns_i128-as_nanos_example : from_ns_i128 (as_nanos before) ≡ some before
from_ns_i128-as_nanos_example = from_ns_i128-as_nanos before before-IsValid

before_nanos : as_nanos before ≡ negsuc 3_499_999_999
unfolding as_nanos saturated ◌+ℤ◌ ◌*ℤ◌
before_nanos = refl

after_made : from_ns_i128 (pos 5_000_000_007) ≡ some after
unfolding from_ns_i128 checked fits div_euclid rem_euclid
after_made = refl

abbrev huge : ℤ
huge = pos 10_000_000_000_000_000_000_000_000_000

huge_fails : from_ns_i128 huge ≡ none
unfolding from_ns_i128 checked fits div_euclid
huge_fails = refl

from_ptp_time-mod_example : from_ptp_time before ≡ rem_euclid (as_nanos before) 4_294_967_296
from_ptp_time-mod_example = from_ptp_time-mod before before-IsValid

expanded_ns-nearest_example :
    (rem_euclid (expanded_ns 12 (pos 8_000_000_000)) 4_294_967_296 ≡ 12)
    × (distance (expanded_ns 12 (pos 8_000_000_000)) (pos 8_000_000_000) ≤ 2 ^ 31)
expanded_ns-nearest_example = expanded_ns-nearest 12 (pos 8_000_000_000) (omega arith)

-- The reference is one second later, in the next window.
abbrev later : PtpTime
later = record { seconds = pos 6; nanoseconds = 7 }

close : distance (as_nanos after) (as_nanos later) < 2 ^ 31
unfolding as_nanos saturated distance ◌+ℤ◌ ◌*ℤ◌
close = omega arith

expand_near-from_ptp_time_example : expand_near (from_ptp_time after) later ≡ ok after
expand_near-from_ptp_time_example = expand_near-from_ptp_time after later after-IsValid close
