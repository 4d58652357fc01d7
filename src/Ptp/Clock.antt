-- ===== src/Ptp/Clock.antt =====
-- src/ptp_phc/clock.rs: hardware clocks, and the clock of the system. The kernel's calls on a device
-- are parameters, with the world that each leaves behind.
pub mod Laws
use Prim.Native.String.{String}
use rs.Prelude.{
  ℕ, zero, suc, ◌+◌, ◌-◌, ◌*◌, ◌%◌, ◌^◌, ◌≡◌, ◌⊎◌, inl, inr, Bool, true, false, not, List, [], ◌∷◌,
  Option, none, some, ◌==◌, if◌then◌else◌,
}
use rs.Prelude.Int.{ℤ, pos, negsuc, ◌+ℤ◌, ◌-ℤ◌}
use rs.Prelude.Machine.{checked}
use rs.Io.{Outcome, ok, err, panic}
use rs.Io.System.{Sys, ◌>>=◌, return, hoist, map_err}
use rs.Ptp.Time.{
  PtpTime, PtpClockTime, Duration, TimeError, from_abi, into_abi, from_ns, try_from_duration,
  new_unchecked,
}
use rs.Ptp.Abi.{
  PtpClockCaps, PtpExttsRequest, PtpExttsEvent, PtpPeroutRequest, PtpPinDesc, Pin, PinFunction,
  Edge, rising, falling, both, Error, open_device, ioctl, clock_gettime_failed,
  read_external_timestamp, duration_too_large, integer_conversion, enable_feature, rising_edge,
  falling_edge, phase_flag, default_perout, default_desc, to_abi, from_desc,
}

-- `libc::timespec`
pub record Timespec : Type 0 where
  pub tv_sec : ℤ
  pub tv_nsec : ℕ

-- The calls: opening a device, its ioctls, `clock_gettime` by the clock's number in two's
-- complement, and `read_exact` of one event.
pub record Kernel : Type 1 where
  pub World : Type 0
  pub Device : Type 0
  pub OsError : Type 0
  pub Errno : Type 0
  pub is_not_found : OsError → Bool
  pub from_utf8_lossy : List ℕ → List ℕ
  pub as_raw_fd : Device → ℕ
  pub open_read_write : List ℕ → Sys World OsError Device
  pub ptp_clock_getcaps : Device → Sys World Errno PtpClockCaps
  pub ptp_pin_getfunc : Device → PtpPinDesc → Sys World Errno PtpPinDesc
  pub ptp_pin_setfunc : Device → PtpPinDesc → Sys World Errno (Unit {0})
  pub ptp_perout_request : Device → PtpPeroutRequest → Sys World Errno (Unit {0})
  pub ptp_perout_request2 : Device → PtpPeroutRequest → Sys World Errno (Unit {0})
  pub ptp_extts_request : Device → PtpExttsRequest → Sys World Errno (Unit {0})
  pub ptp_extts_request2 : Device → PtpExttsRequest → Sys World Errno (Unit {0})
  pub clock_gettime : ℕ → Sys World OsError Timespec
  pub read_event : Device → Sys World OsError PtpExttsEvent

pub record Capabilities : Type 0 where
  pub max_adjustment_ppb : ℤ
  pub programmable_alarms : ℤ
  pub external_timestamp_channels : ℤ
  pub periodic_output_channels : ℤ
  pub pulse_per_second : Bool
  pub programmable_pins : ℤ
  pub cross_timestamping : Bool
  pub adjust_phase : Bool
  pub max_phase_adjustment_ns : ℤ

abbrev pub nonzero : ℤ → Bool
nonzero (pos n) = not (n == 0)
nonzero (negsuc n) = true

-- `Capabilities::from`
unfoldable pub capabilities_from : PtpClockCaps → Capabilities
capabilities_from caps = record {
  max_adjustment_ppb = caps.max_adj;
  programmable_alarms = caps.n_alarm;
  external_timestamp_channels = caps.n_ext_ts;
  periodic_output_channels = caps.n_per_out;
  pulse_per_second = nonzero caps.pps;
  programmable_pins = caps.n_pins;
  cross_timestamping = nonzero caps.cross_timestamping;
  adjust_phase = nonzero caps.adjust_phase;
  max_phase_adjustment_ns = caps.max_phase_adj;
}

pub record ExternalTimestampEvent : Type 0 where
  pub timestamp : PtpTime
  pub channel : ℕ
  pub flags : ℕ

-- `clock_id_from_fd` on the two's complement of an i32: `((!fd) << 3) | 3`.
unfoldable pub clock_id_from_fd : ℕ → ℕ
clock_id_from_fd fd = (2 ^ 32 - 1 - fd) * 8 % 2 ^ 32 + 3

-- `now.tv_sec + 2` of an i64, which wraps around, and a request's start.
unfoldable pub two_seconds_on : ℤ → ℤ
two_seconds_on sec = elim (checked 63 (sec +ℤ pos 2)) [
  | some later ↦ later
  | none ↦ (sec +ℤ pos 2) -ℤ pos (2 ^ 64)
]

unfoldable pub start_after : Timespec → PtpClockTime
start_after now = record { sec = two_seconds_on now.tv_sec; nsec = 0; reserved = 0 }

unfoldable pub edge_flags : Edge → ℕ
edge_flags rising = rising_edge
edge_flags falling = falling_edge
edge_flags both = rising_edge + falling_edge

module _ (k : Kernel) where
  open k use {World, Device, OsError, Errno}

  abbrev pub Call : Type 0 → Type 0
  Call = Sys World (Error OsError Errno)

  pub record PtpClockHardware : Type 0 where
    pub device : Device
    pub path : List ℕ

  -- `PtpClockHardware::open`
  unfoldable pub open_hardware : List ℕ → Call PtpClockHardware
  open_hardware path = do
    device ← map_err (open_device path) (k.open_read_write path)
    return (record { device = device; path = path })

  unfoldable pub raw_capabilities : PtpClockHardware → Call PtpClockCaps
  raw_capabilities c = map_err (ioctl "PTP_CLOCK_GETCAPS") (k.ptp_clock_getcaps c.device)

  unfoldable pub capabilities : PtpClockHardware → Call Capabilities
  capabilities c = do caps ← raw_capabilities c; return (capabilities_from caps)

  unfoldable pub raw_pin : PtpClockHardware → ℕ → Call PtpPinDesc
  raw_pin c index =
      map_err (ioctl "PTP_PIN_GETFUNC")
        (k.ptp_pin_getfunc c.device (record default_desc { index = index }))

  unfoldable pub pin : PtpClockHardware → ℕ → Call Pin
  pin c index = do desc ← raw_pin c index; return (from_desc k.from_utf8_lossy desc)

  -- `u32::try_from(caps.n_pins)?` of an i32
  unfoldable pub pin_count : ℤ → Error OsError Errno ⊎ ℕ
  pin_count (pos n) = inr n
  pin_count (negsuc n) = inl integer_conversion

  -- `(index..index + left).map(|index| self.pin(index)).collect()`
  unfoldable pub collect_pins : PtpClockHardware → ℕ → ℕ → Call (List Pin)
  collect_pins c index zero = return []
  collect_pins c index (suc left) = do
    first ← pin c index
    rest ← collect_pins c (index + 1) left
    return (first ∷ rest)

  unfoldable pub pins : PtpClockHardware → Call (List Pin)
  pins c = do
    caps ← raw_capabilities c
    count ← hoist (pin_count caps.n_pins)
    collect_pins c 0 count

  unfoldable pub set_pin_function : PtpClockHardware → ℕ → PinFunction → ℕ → Call (Unit {0})
  set_pin_function c index function channel = map_err (ioctl "PTP_PIN_SETFUNC") (
      k.ptp_pin_setfunc c.device
        (record default_desc { index = index; func = to_abi function; chan = channel }))

  -- The newer request, and the older one where it fails.
  unfoldable pub or_older :
      String
      → Sys World Errno (Unit {0})
      → (Errno ⊎ Unit {0}) × World
      → (Error OsError Errno ⊎ Unit {0}) × World
  or_older operation older (inr u, w) = (inr tt, w)
  or_older operation older (inl e, w) = map_err (ioctl operation) older w

  unfoldable pub perout_request : PtpClockHardware → PtpPeroutRequest → Call (Unit {0})
  perout_request c request w =
      or_older "PTP_PEROUT_REQUEST" (k.ptp_perout_request c.device request)
        (k.ptp_perout_request2 c.device request w)

  unfoldable pub extts_request : PtpClockHardware → PtpExttsRequest → Call (Unit {0})
  extts_request c request w =
      or_older "PTP_EXTTS_REQUEST" (k.ptp_extts_request c.device request)
        (k.ptp_extts_request2 c.device request w)

  unfoldable pub clock_gettime : PtpClockHardware → Call Timespec
  clock_gettime c =
      map_err clock_gettime_failed (k.clock_gettime (clock_id_from_fd (k.as_raw_fd c.device)))

  -- `PtpTime::try_from(duration)?`
  unfoldable pub time_of : Duration → Error OsError Errno ⊎ PtpTime
  time_of d = elim (try_from_duration d) [
    | ok t ↦ inr t
    | err e ↦ inl duration_too_large
    | panic ↦ inl duration_too_large
  ]

  unfoldable pub perout_for : ℕ → PtpTime → PtpPeroutRequest
  perout_for channel period = record default_perout { period = into_abi period; index = channel }

  -- The request with its phase, or with a start that is read off the clock.
  unfoldable pub with_phase : PtpPeroutRequest → PtpTime → PtpPeroutRequest
  with_phase request phase = record request { start_or_phase = into_abi phase; flags = phase_flag }

  unfoldable pub with_start : PtpClockHardware → PtpPeroutRequest → Call (Unit {0})
  with_start c request = do
    now ← clock_gettime c
    perout_request c (record request { start_or_phase = start_after now })

  unfoldable pub request_duration :
      PtpClockHardware → PtpPeroutRequest → Option Duration → Call (Unit {0})
  request_duration c request none = with_start c request
  request_duration c request (some phase) = do
    offset ← hoist (time_of phase)
    perout_request c (with_phase request offset)

  unfoldable pub enable_periodic_output :
      PtpClockHardware → ℕ → Duration → Option Duration → Call (Unit {0})
  enable_periodic_output c channel period phase = do
    time ← hoist (time_of period)
    request_duration c (perout_for channel time) phase

  unfoldable pub request_ns : PtpClockHardware → PtpPeroutRequest → Option ℤ → Call (Unit {0})
  request_ns c request none = with_start c request
  request_ns c request (some phase_ns) = perout_request c (with_phase request (from_ns phase_ns))

  unfoldable pub enable_periodic_output_ns : PtpClockHardware → ℕ → ℤ → Option ℤ → Call (Unit {0})
  enable_periodic_output_ns c channel period_ns phase_ns =
      request_ns c (perout_for channel (from_ns period_ns)) phase_ns

  unfoldable pub disable_periodic_output : PtpClockHardware → ℕ → Call (Unit {0})
  disable_periodic_output c channel = perout_request c (record default_perout { index = channel })

  unfoldable pub enable_external_timestamping : PtpClockHardware → ℕ → Edge → Call (Unit {0})
  enable_external_timestamping c channel edge =
      extts_request c
        (record { index = channel; flags = enable_feature + edge_flags edge; rsv = 0 ∷ 0 ∷ [] })

  unfoldable pub disable_external_timestamping : PtpClockHardware → ℕ → Call (Unit {0})
  disable_external_timestamping c channel =
      extts_request c (record { index = channel; flags = 0; rsv = 0 ∷ 0 ∷ [] })

  unfoldable pub read_external_timestamp_event : PtpClockHardware → Call ExternalTimestampEvent
  read_external_timestamp_event c = do
    event ← map_err read_external_timestamp (k.read_event c.device)
    return (record { timestamp = from_abi event.t; channel = event.index; flags = event.flags })

  pub data PtpClock : Type 0 where
    hardware : PtpClockHardware → PtpClock
    system_time : PtpClock

  -- `PtpTime::from_normalized_timespec`, and `time` of the three clocks; CLOCK_REALTIME is 0.
  unfoldable pub time_from : Timespec → PtpTime
  time_from ts = new_unchecked ts.tv_sec (ts.tv_nsec % 2 ^ 32)

  unfoldable pub hardware_time : PtpClockHardware → Call PtpTime
  hardware_time c = do ts ← clock_gettime c; return (time_from ts)

  unfoldable pub system_clock_time : Call PtpTime
  system_clock_time = do
    ts ← map_err clock_gettime_failed (k.clock_gettime 0)
    return (time_from ts)

  unfoldable pub time : PtpClock → Call PtpTime
  time (hardware c) = hardware_time c
  time system_time = system_clock_time

  unfoldable pub open_strict : List ℕ → Call PtpClock
  open_strict path = do c ← open_hardware path; return (hardware c)

  unfoldable pub or_system_time :
      List ℕ → (OsError ⊎ Device) × World → (Error OsError Errno ⊎ PtpClock) × World
  or_system_time path (inr device, w) =
      (inr (hardware (record { device = device; path = path })), w)
  or_system_time path (inl e, w) =
      (if k.is_not_found e then inr system_time else inl (open_device path e), w)

  unfoldable pub open_with_system_time_fallback : List ℕ → Call PtpClock
  open_with_system_time_fallback path w = or_system_time path (k.open_read_write path w)
