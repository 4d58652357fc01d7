-- ===== src/Proto/State.antt =====
-- src/ptp_proto/state.rs: the datasets that `pmc` prints, and how they are parsed.
-- Floating-point numbers and their parser are parameters.
pub mod Fields
pub mod Blocks
pub mod Snapshot
use Prim.Native.String.{String}
use rs.Prelude.{
  ℕ, zero, suc, Bool, true, false, ◌&&◌, List, [], ◌∷◌, Option, none, some, ◌==◌, if◌then◌else◌,
}
use rs.Prelude.Int.{ℤ}
use rs.Prelude.Text.{codes, same}
use rs.Io.{Outcome, ok, err}

pub data PortState : Type 0 where
  initializing faulty disabled listening pre_master master passive uncalibrated slave : PortState
  unknown : List ℕ → PortState

-- `PortState::parse`
unfoldable pub parse_port_state : List ℕ → PortState
parse_port_state s =
    if same s (codes "INITIALIZING")
    then initializing
    else if same s (codes "FAULTY")
    then faulty
    else if same s (codes "DISABLED")
    then disabled
    else if same s (codes "LISTENING")
    then listening
    else if same s (codes "PRE_MASTER")
    then pre_master
    else if same s (codes "MASTER")
    then master
    else if same s (codes "PASSIVE")
    then passive
    else if same s (codes "UNCALIBRATED")
    then uncalibrated
    else if same s (codes "SLAVE")
    then slave
    else unknown s

unfoldable pub is_unexpected_for_slave : PortState → Bool
is_unexpected_for_slave initializing = false
is_unexpected_for_slave faulty = true
is_unexpected_for_slave disabled = true
is_unexpected_for_slave listening = false
is_unexpected_for_slave pre_master = true
is_unexpected_for_slave master = true
is_unexpected_for_slave passive = true
is_unexpected_for_slave uncalibrated = false
is_unexpected_for_slave slave = false
is_unexpected_for_slave (unknown s) = true

unfoldable pub is_unexpected_for_master : PortState → Bool
is_unexpected_for_master initializing = false
is_unexpected_for_master faulty = true
is_unexpected_for_master disabled = true
is_unexpected_for_master listening = false
is_unexpected_for_master pre_master = false
is_unexpected_for_master master = false
is_unexpected_for_master passive = true
is_unexpected_for_master uncalibrated = true
is_unexpected_for_master slave = true
is_unexpected_for_master (unknown s) = true

pub record TimeStatusNp (F64 : Type 0) : Type 0 where
  pub master_offset_ns : ℤ
  pub ingress_time : ℤ
  pub cumulative_scaled_rate_offset : F64
  pub gm_present : Bool
  pub gm_identity : List ℕ

pub record PortDataSet : Type 0 where
  pub port_identity : List ℕ
  pub port_state : PortState
  pub log_min_delay_req_interval : ℤ
  pub peer_mean_path_delay : ℤ
  pub log_announce_interval : ℤ
  pub announce_receipt_timeout : ℕ
  pub log_sync_interval : ℤ
  pub delay_mechanism : ℕ
  pub log_min_pdelay_req_interval : ℤ
  pub version_number : ℕ

pub record CurrentDataSet (F64 : Type 0) : Type 0 where
  pub steps_removed : ℕ
  pub offset_from_master_ns : F64
  pub mean_path_delay_ns : F64

pub record PtpSnapshot (F64 : Type 0) : Type 0 where
  pub time_status : TimeStatusNp F64
  pub port_data : PortDataSet
  pub current_data : CurrentDataSet F64

pub data FieldParseError : Type 0 where
  missing_field invalid_field : String → FieldParseError

pub record DatasetParseError : Type 0 where
  pub dataset : String
  pub field_err : FieldParseError

pub data SnapshotParseError : Type 0 where
  missing_dataset duplicate_dataset : String → SnapshotParseError
  dataset_error : DatasetParseError → SnapshotParseError

unfoldable pub is_slave : PortState → Bool
is_slave initializing = false
is_slave faulty = false
is_slave disabled = false
is_slave listening = false
is_slave pre_master = false
is_slave master = false
is_slave passive = false
is_slave uncalibrated = false
is_slave slave = true
is_slave (unknown s) = false

unfoldable pub is_master_state : PortState → Bool
is_master_state initializing = false
is_master_state faulty = false
is_master_state disabled = false
is_master_state listening = false
is_master_state pre_master = false
is_master_state master = true
is_master_state passive = false
is_master_state uncalibrated = false
is_master_state slave = false
is_master_state (unknown s) = false

module _ {F64 : Type 0} (snapshot : PtpSnapshot F64) where
  unfoldable pub is_synchronized : Bool
  is_synchronized = is_slave snapshot.port_data.port_state

  unfoldable pub is_master : Bool
  is_master = is_master_state snapshot.port_data.port_state

  unfoldable pub offset_ns : Option ℤ
  offset_ns = if is_synchronized then some snapshot.time_status.master_offset_ns else none

-- The place of a state in the declaration, the text that it holds, and the derived `==`.
abbrev pub place : PortState → ℕ
place initializing = 0
place faulty = 1
place disabled = 2
place listening = 3
place pre_master = 4
place master = 5
place passive = 6
place uncalibrated = 7
place slave = 8
place (unknown s) = 9

abbrev pub held_text : PortState → List ℕ
held_text initializing = []
held_text faulty = []
held_text disabled = []
held_text listening = []
held_text pre_master = []
held_text master = []
held_text passive = []
held_text uncalibrated = []
held_text slave = []
held_text (unknown s) = s

unfoldable pub same_state : PortState → PortState → Bool
same_state a b = place a == place b && same (held_text a) (held_text b)
