-- ===== src/Tests/Kernel.antt =====
-- A small kernel for the properties of hardware clocks: its world is the number of calls so far.
use rs.Prelude.{ℕ, suc, ◌≤◌, ◌<◌, ◌^◌, ◌%◌, ◌≡◌, refl, inl, inr, [], ◌∷◌, some, ◌==◌, arith}
use rs.Prelude.Int.{pos}
use rs.Prelude.Text.{codes}
use rs.Io.System.{◌>>=◌, proceed, map_err, map_left}
use rs.Ptp.Time.{Duration}
use rs.Ptp.Abi.{
  PtpClockCaps, Pin, default_desc, from_desc, function_from_abi, name_bytes, unassigned,
}
use rs.Ptp.Clock.{
  Kernel, PtpClockHardware, clock_id_from_fd, pins, pin, raw_pin, raw_capabilities, pin_count,
  collect_pins, enable_periodic_output, enable_periodic_output_ns, open_strict,
  open_with_system_time_fallback,
}
use rs.Ptp.Clock.Laws.{
  IsShort, fd_of, fd_of-clock_id_from_fd, enable_periodic_output-nanos_of, length-pins,
  open_with_system_time_fallback-open_strict,
}

abbrev two_pins : PtpClockCaps
two_pins = record {
  max_adj = pos 1;
  n_alarm = pos 0;
  n_ext_ts = pos 1;
  n_per_out = pos 1;
  pps = pos 0;
  n_pins = pos 2;
  cross_timestamping = pos 0;
  adjust_phase = pos 0;
  max_phase_adj = pos 0;
  rsv = [];
}

abbrev small : Kernel
small = record {
  World = ℕ;
  Device = ℕ;
  OsError = ℕ;
  Errno = ℕ;
  is_not_found = λ e. e == 2;
  from_utf8_lossy = λ bs. bs;
  as_raw_fd = λ d. d;
  open_read_write = λ p w. (inl 2, suc w);
  ptp_clock_getcaps = λ d w. (inr two_pins, suc w);
  ptp_pin_getfunc = λ d desc w. (inr desc, suc w);
  ptp_pin_setfunc = λ d desc w. (inr tt, suc w);
  ptp_perout_request = λ d r w. (inr tt, suc w);
  ptp_perout_request2 = λ d r w. (inl 22, suc w);
  ptp_extts_request = λ d r w. (inr tt, suc w);
  ptp_extts_request2 = λ d r w. (inr tt, suc w);
  clock_gettime = λ id w. (inr (record { tv_sec = pos 100; tv_nsec = 5 }), suc w);
  read_event = λ d w. (inl 5, suc w);
}

abbrev clock : PtpClockHardware small
clock = record { device = 3; path = codes "/dev/ptp0" }

fd_of-clock_id_from_fd_example :
    (fd_of (clock_id_from_fd 3) ≡ 3)
    × (2 ^ 31 ≤ clock_id_from_fd 3)
    × (clock_id_from_fd 3 < 2 ^ 32)
    × (clock_id_from_fd 3 % 8 ≡ 3)
fd_of-clock_id_from_fd_example = fd_of-clock_id_from_fd 3 (omega arith)

abbrev second : Duration
second = record { secs = 1; subsec_nanos = 5 }

second-IsShort : IsShort second
second-IsShort = record { subsec = omega arith; short = omega arith }

enable_periodic_output-nanos_of_example :
    enable_periodic_output small clock 0 second (some second) 7
    ≡ enable_periodic_output_ns small clock 0 (pos 1_000_000_005) (some (pos 1_000_000_005)) 7
enable_periodic_output-nanos_of_example =
    enable_periodic_output-nanos_of small clock 0 second (some second) 7 second-IsShort
      second-IsShort

abbrev shown : ℕ → Pin
shown i = record { name = []; index = i; function = unassigned; channel = 0 }

pins_run : pins small clock 0 ≡ (inr (shown 0 ∷ shown 1 ∷ []), 3)
unfolding pins raw_capabilities map_err map_left ◌>>=◌ proceed pin_count collect_pins pin raw_pin
    default_desc from_desc function_from_abi name_bytes
pins_run = refl

length-pins_example :
    (caps : PtpClockCaps) × (u : ℕ) × (raw_capabilities small clock 0 ≡ (inr caps, u))
    × (caps.n_pins ≡ pos 2)
length-pins_example = length-pins small clock 0 3 (shown 0 ∷ shown 1 ∷ []) pins_run

-- The device is there, but may not be opened.
abbrev forbidden : Kernel
forbidden = record small { open_read_write = λ p w. (inl 13, suc w) }

open_with_system_time_fallback-open_strict_example :
    open_with_system_time_fallback forbidden (codes "/dev/ptp9") 0
    ≡ open_strict forbidden (codes "/dev/ptp9") 0
open_with_system_time_fallback-open_strict_example =
    open_with_system_time_fallback-open_strict forbidden (codes "/dev/ptp9") 0
      (λ e h. let refused : 13 ≡ e = cc in rw (← refused) refl)
