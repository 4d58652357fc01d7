-- ===== src/Proto/State/Snapshot/Total.antt =====
-- src/ptp_proto/state.rs: parsing the output of `pmc` does not panic.
use Prim.Native.String.{String}
use rs.Prelude.{◌≢◌, List, [], ◌∷◌, Option, none, some, Bool-cases, inl, inr, ℕ}
use rs.Prelude.Text.{codes, same}
use rs.Io.{Outcome, panic, ok_or}
use rs.Io.Outcomes.{bind_total, map_err_total}
use rs.Proto.State.{FieldParseError}
use rs.Proto.State.Blocks.{Block, parse_blocks}
use rs.Proto.State.Fields.{
  FieldMap, field, parsed, to_map, time_status_of, port_data_of, current_data_of,
}
use rs.Proto.State.Snapshot.{once, Found, complete, take_block, take_blocks, parse_pmc_output}

ok_or_total : {E A : Type 0} (o : Option A) (e : E) → ok_or o e ≢ panic
ok_or_total none e = λ k. cc
ok_or_total (some a) e = λ k. cc

field_total : (m : FieldMap) (name : String) → field m name ≢ panic
unfolding field
field_total m name = ok_or_total _ _

parsed_total :
    {A : Type 0} (p : List ℕ → Option A) (m : FieldMap) (name : String) → parsed p m name ≢ panic
unfolding parsed
parsed_total p m name = bind_total _ _ (field_total m name) (λ v e. ok_or_total _ _)

once_total :
    {A : Type 0} (name : String) (o : Option A) (r : Outcome FieldParseError A)
    → r ≢ panic
    → once name o r ≢ panic
unfolding once
once_total name none r h = map_err_total _ r h
once_total name (some a) r h = λ k. cc

module _ {F64 : Type 0} (parse_f64 : List ℕ → Option F64) where
  time_total : (m : FieldMap) → time_status_of parse_f64 m ≢ panic
  unfolding time_status_of
  time_total m = bind_total _ _ (parsed_total _ m _) λ a _.
      bind_total _ _ (parsed_total _ m _) λ b _. bind_total _ _ (parsed_total _ m _) λ c _.
        bind_total _ _ (parsed_total _ m _) λ d _. bind_total _ _ (field_total m _) λ e _. λ k. cc

  current_total : (m : FieldMap) → current_data_of parse_f64 m ≢ panic
  unfolding current_data_of
  current_total m = bind_total _ _ (parsed_total _ m _) λ a _.
      bind_total _ _ (parsed_total _ m _) λ b _. bind_total _ _ (parsed_total _ m _) λ c _. λ k. cc

  port_total : (m : FieldMap) → port_data_of m ≢ panic
  unfolding port_data_of
  port_total m = bind_total _ _ (field_total m _) λ a _. bind_total _ _ (field_total m _) λ b _.
      bind_total _ _ (parsed_total _ m _) λ c _. bind_total _ _ (parsed_total _ m _) λ d _.
        bind_total _ _ (parsed_total _ m _) λ e _. bind_total _ _ (parsed_total _ m _) λ f _.
          bind_total _ _ (parsed_total _ m _) λ g _. bind_total _ _ (parsed_total _ m _) λ h _.
            bind_total _ _ (parsed_total _ m _)
              λ i _. bind_total _ _ (parsed_total _ m _) λ j _. λ k. cc

  take_block_total : (f : Found F64) (b : Block) → take_block parse_f64 f b ≢ panic
  unfolding take_block
  take_block_total f (kind, ls) = elim (Bool-cases (same kind (codes "TIME_STATUS_NP"))) [
    | inl t ↦ rw t (bind_total _ _ (once_total _ _ _ (time_total (to_map ls))) λ d _. λ k. cc)
    | inr t ↦ elim (Bool-cases (same kind (codes "PORT_DATA_SET"))) [
      | inl p ↦
          rw (t, p) (bind_total _ _ (once_total _ _ _ (port_total (to_map ls))) λ d _. λ k. cc)
      | inr p ↦ elim (Bool-cases (same kind (codes "CURRENT_DATA_SET"))) [
        | inl c ↦
            rw (t, p, c)
              (bind_total _ _ (once_total _ _ _ (current_total (to_map ls))) λ d _. λ k. cc)
        | inr c ↦ rw (t, p, c) (λ k. cc)
      ]
    ]
  ]

  take_blocks_total : (f : Found F64) (bs : List Block) → take_blocks parse_f64 f bs ≢ panic
  unfolding take_blocks
  take_blocks_total f [] = λ k. cc
  take_blocks_total f (b ∷ bs) = bind_total _ _ (take_block_total f b) λ g _. take_blocks_total g bs

  complete_total : (f : Found F64) → complete f ≢ panic
  unfolding complete
  complete_total f = bind_total _ _ (ok_or_total f.time_status _) λ a _.
      bind_total _ _ (ok_or_total f.port_data _)
        λ b _. bind_total _ _ (ok_or_total f.current_data _) λ c _. λ k. cc

  pub parse_pmc_output_total : (text : List ℕ) → parse_pmc_output parse_f64 text ≢ panic
  unfolding parse_pmc_output
  parse_pmc_output_total text =
      bind_total _ complete (take_blocks_total _ (parse_blocks text)) (λ f e. complete_total f)
