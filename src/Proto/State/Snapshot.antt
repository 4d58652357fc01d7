-- ===== src/Proto/State/Snapshot.antt =====
-- src/ptp_proto/state.rs: a snapshot from the output of `pmc`.
pub mod Scan
pub mod Laws
pub mod Total
use Prim.Native.String.{String}
use rs.Prelude.{ℕ, Bool, true, false, List, [], ◌∷◌, Option, none, some, if◌then◌else◌}
use rs.Prelude.Text.{codes, same}
use rs.Io.{Outcome, ok, err, panic, bind, map_err, ok_or}
use rs.Proto.State.{
  TimeStatusNp, PortDataSet, CurrentDataSet, PtpSnapshot, FieldParseError, DatasetParseError,
  SnapshotParseError, missing_dataset, duplicate_dataset, dataset_error,
}
use rs.Proto.State.Blocks.{Block, parse_blocks}
use rs.Proto.State.Fields.{to_map, time_status_of, port_data_of, current_data_of}

-- A dataset that must not have been there before, and the context of its error.
unfoldable pub once :
    {A : Type 0} → String → Option A → Outcome FieldParseError A → Outcome SnapshotParseError A
once name (some a) o = err (duplicate_dataset name)
once name none o = map_err (λ e. dataset_error (record { dataset = name; field_err = e })) o

-- The variables of `parse_pmc_output`.
pub record Found (F64 : Type 0) : Type 0 where
  pub time_status : Option (TimeStatusNp F64)
  pub port_data : Option PortDataSet
  pub current_data : Option (CurrentDataSet F64)

unfoldable pub complete : {F64 : Type 0} → Found F64 → Outcome SnapshotParseError (PtpSnapshot F64)
complete f = bind (ok_or f.time_status (missing_dataset "TIME_STATUS_NP")) λ time_status.
    bind (ok_or f.port_data (missing_dataset "PORT_DATA_SET")) λ port_data.
      bind (ok_or f.current_data (missing_dataset "CURRENT_DATA_SET")) λ current_data.
        ok
          (record { time_status = time_status; port_data = port_data; current_data = current_data })

module _ {F64 : Type 0} (parse_f64 : List ℕ → Option F64) where
  unfoldable pub take_block : Found F64 → Block → Outcome SnapshotParseError (Found F64)
  take_block f (kind, lines) =
      if same kind (codes "TIME_STATUS_NP")
      then bind (once "TIME_STATUS_NP" f.time_status (time_status_of parse_f64 (to_map lines)))
          (λ d. ok (record f { time_status = some d }))
      else if same kind (codes "PORT_DATA_SET")
      then bind (once "PORT_DATA_SET" f.port_data (port_data_of (to_map lines)))
          (λ d. ok (record f { port_data = some d }))
      else if same kind (codes "CURRENT_DATA_SET")
      then bind (once "CURRENT_DATA_SET" f.current_data (current_data_of parse_f64 (to_map lines)))
          (λ d. ok (record f { current_data = some d }))
      else ok f

  unfoldable pub take_blocks : Found F64 → List Block → Outcome SnapshotParseError (Found F64)
  take_blocks f [] = ok f
  take_blocks f (b ∷ bs) = bind (take_block f b) λ g. take_blocks g bs

  unfoldable pub parse_pmc_output : List ℕ → Outcome SnapshotParseError (PtpSnapshot F64)
  parse_pmc_output text =
      bind
        (take_blocks (record { time_status = none; port_data = none; current_data = none })
          (parse_blocks text))
        complete
