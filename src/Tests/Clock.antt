-- ===== src/Tests/Clock.antt =====
-- The synchronized clock at concrete instants (src/avtp/synchronizer.rs), with whole numbers in
-- place of floats.
use rs.Prelude.{ℕ, ◌+◌, ◌-◌, ◌*◌, ◌/◌, [], ◌∷◌, ltb, arith}
use rs.Prelude.Int.{pos, pos_part}
use rs.Io.{Outcome, ok, IoError}
use rs.Ptp.Time.{PtpTime}
use rs.Avtp.Synchronizer.{Float, PtpSynchronizedClock}
use rs.Avtp.Synchronizer.Laws.{Ascending, returned, returned-Ascending}

abbrev whole : Float
whole = record {
  F = ℕ;
  literal = λ n d. n / d;
  from_ns = λ n. n;
  from_int = λ z. pos_part z;
  round_i128 = λ n. pos n;
  to_i64 = λ n. pos n;
  add = λ a b. a + b;
  sub = λ a b. a - b;
  mul = λ a b. a * b;
  div = λ a b. a / b;
  neg = λ a. a;
  abs = λ a. a;
  gt = λ a b. ltb b a;
  clamp = λ a low high. a;
}

abbrev start : PtpTime
start = record { seconds = pos 5; nanoseconds = 7 }

-- A source that always gives the same time, so that a resync steps back.
abbrev stuck : ℕ → ℕ × Outcome IoError PtpTime
stuck n = (n + 1, ok start)

abbrev fresh : PtpSynchronizedClock ℕ ℕ
fresh = record {
  clock = 0;
  initial_ptp_time = start;
  last_ptp_time = start;
  last_ptp_instant = 10;
  frequency_adjustment = 1;
  phase_offset_ns = pos 0;
  last_returned = record { secs = 0; subsec_nanos = 0 };
  resync_interval = 100;
}

returned-Ascending_example :
    Ascending whole stuck fresh.last_returned (returned whole stuck fresh (15 ∷ 15 ∷ 200 ∷ []))
returned-Ascending_example = returned-Ascending whole stuck fresh (15 ∷ 15 ∷ 200 ∷ []) (omega arith)
