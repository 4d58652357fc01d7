-- ===== src/Ptp/Abi.antt =====
-- src/ptp_phc/abi.rs, pin.rs, mod.rs and error.rs: the kernel's structures, pins and errors.
-- A pin's name is its bytes; `String::from_utf8_lossy` is a parameter of what shows it.
use Prim.Native.String.{String}
use rs.Prelude.{ℕ, ◌≡◌, List, [], ◌∷◌, ◌==◌, if◌then◌else◌, replicate, arith}
use rs.Prelude.Int.{ℤ, pos}
use rs.Ptp.Time.{PtpClockTime}

pub record PtpClockCaps : Type 0 where
  pub max_adj : ℤ
  pub n_alarm : ℤ
  pub n_ext_ts : ℤ
  pub n_per_out : ℤ
  pub pps : ℤ
  pub n_pins : ℤ
  pub cross_timestamping : ℤ
  pub adjust_phase : ℤ
  pub max_phase_adj : ℤ
  pub rsv : List ℤ

-- The flags are the bits of a u32; `|` of different single bits is their sum.
abbrev pub enable_feature : ℕ
enable_feature = 1

abbrev pub rising_edge : ℕ
rising_edge = 2

abbrev pub falling_edge : ℕ
falling_edge = 4

abbrev pub phase_flag : ℕ
phase_flag = 4

pub record PtpExttsRequest : Type 0 where
  pub index : ℕ
  pub flags : ℕ
  pub rsv : List ℕ

pub record PtpExttsEvent : Type 0 where
  pub t : PtpClockTime
  pub index : ℕ
  pub flags : ℕ
  pub rsv : List ℕ

pub record PtpPeroutRequest : Type 0 where
  pub start_or_phase : PtpClockTime
  pub period : PtpClockTime
  pub index : ℕ
  pub flags : ℕ
  pub on_or_rsv : PtpClockTime

abbrev pub zero_time : PtpClockTime
zero_time = record { sec = pos 0; nsec = 0; reserved = 0 }

-- `PtpPeroutRequest::default()`
unfoldable pub default_perout : PtpPeroutRequest
default_perout = record {
  start_or_phase = zero_time;
  period = zero_time;
  index = 0;
  flags = 0;
  on_or_rsv = zero_time;
}

-- `PtpPinFunction(raw)`, with its named values.
pub record PtpPinFunction : Type 0 where
  pub raw : ℕ

abbrev pub ptp_pf_none : PtpPinFunction
ptp_pf_none = record { raw = 0 }

abbrev pub ptp_pf_extts : PtpPinFunction
ptp_pf_extts = record { raw = 1 }

abbrev pub ptp_pf_perout : PtpPinFunction
ptp_pf_perout = record { raw = 2 }

abbrev pub ptp_pf_physync : PtpPinFunction
ptp_pf_physync = record { raw = 3 }

pub record PtpPinDesc : Type 0 where
  pub name : List ℕ
  pub index : ℕ
  pub func : PtpPinFunction
  pub chan : ℕ
  pub rsv : List ℕ

-- `PtpPinDesc::default()`
unfoldable pub default_desc : PtpPinDesc
default_desc = record {
  name = replicate 64 0;
  index = 0;
  func = ptp_pf_none;
  chan = 0;
  rsv = replicate 5 0;
}

-- The bytes of `pin_name`, up to the first zero.
unfoldable pub name_bytes : List ℕ → List ℕ
name_bytes [] = []
name_bytes (b ∷ bs) = let rest = name_bytes bs in if b == 0 then [] else b ∷ rest

pub data PinFunction : Type 0 where
  unassigned external_timestamp periodic_output physical_sync : PinFunction
  unknown : ℕ → PinFunction

unfoldable pub to_abi : PinFunction → PtpPinFunction
to_abi unassigned = ptp_pf_none
to_abi external_timestamp = ptp_pf_extts
to_abi periodic_output = ptp_pf_perout
to_abi physical_sync = ptp_pf_physync
to_abi (unknown raw) = record { raw = raw }

-- `PinFunction::from_abi`
unfoldable pub function_from_abi : PtpPinFunction → PinFunction
function_from_abi f =
    if f.raw == 0
    then unassigned
    else if f.raw == 1
    then external_timestamp
    else if f.raw == 2
    then periodic_output
    else if f.raw == 3
    then physical_sync
    else unknown f.raw

pub record Pin : Type 0 where
  pub name : List ℕ
  pub index : ℕ
  pub function : PinFunction
  pub channel : ℕ

unfoldable pub from_desc : (List ℕ → List ℕ) → PtpPinDesc → Pin
from_desc from_utf8_lossy desc = record {
  name = from_utf8_lossy (name_bytes desc.name);
  index = desc.index;
  function = function_from_abi desc.func;
  channel = desc.chan;
}

pub data Edge : Type 0 where
  rising falling both : Edge

-- The errors of the clocks, over those of the operating system and of `nix`.
pub data Error (OsError Errno : Type 0) : Type 0 where
  open_device : List ℕ → OsError → Error OsError Errno
  ioctl : String → Errno → Error OsError Errno
  clock_gettime_failed : OsError → Error OsError Errno
  read_external_timestamp : OsError → Error OsError Errno
  duration_too_large : Error OsError Errno
  integer_conversion : Error OsError Errno

pub to_abi-function_from_abi : (f : PtpPinFunction) → to_abi (function_from_abi f) ≡ f
unfolding to_abi function_from_abi
to_abi-function_from_abi f = ground arith
