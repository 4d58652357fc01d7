-- ===== src/Proto/State/Fields.antt =====
-- src/ptp_proto/state.rs: the fields of a dataset.
use Prim.Native.String.{String}
use rs.Prelude.{
  ℕ, ◌≡◌, refl, ap, ◌∙◌, Bool-cases, inl, inr, Bool, true, false, List, [], ◌∷◌, Option, none, some,
  arith, if◌then◌else◌,
}
use rs.Prelude.Text.{
  codes, same, same_refl, same-eq, trim, split_once_whitespace, parse_signed, parse_unsigned,
}
use rs.Io.{Outcome, ok, bind, ok_or}
use rs.Proto.State.{
  parse_port_state, TimeStatusNp, PortDataSet, CurrentDataSet, FieldParseError, missing_field,
  invalid_field,
}

-- A `HashMap` from keys to values: `insert` replaces the value of a key that is there.
abbrev pub FieldMap : Type 0
FieldMap = List (List ℕ × List ℕ)

unfoldable pub get : List ℕ → FieldMap → Option (List ℕ)
get k [] = none
get k ((j, v) ∷ m) = let rest = get k m in if same j k then some v else rest

unfoldable pub insert : List ℕ → List ℕ → FieldMap → FieldMap
insert k v [] = (k, v) ∷ []
insert k v ((j, w) ∷ m) = let rest = insert k v m in if same j k then (j, v) ∷ m else (j, w) ∷ rest

-- One round of the loop in `to_map`.
unfoldable pub insert_field : FieldMap → Option (List ℕ × List ℕ) → FieldMap
insert_field m none = m
insert_field m (some (key, value)) = insert key (trim value) m

unfoldable pub fill_map : FieldMap → List (List ℕ) → FieldMap
fill_map m [] = m
fill_map m (line ∷ lines) = fill_map (insert_field m (split_once_whitespace line)) lines

unfoldable pub to_map : List (List ℕ) → FieldMap
to_map lines = fill_map [] lines

-- `map.get(name).ok_or(MissingField(name))?`, and `.parse().map_err(|_| InvalidField(name))?`
unfoldable pub field : FieldMap → String → Outcome FieldParseError (List ℕ)
field m name = ok_or (get (codes name) m) (missing_field name)

unfoldable pub parsed :
    {A : Type 0} → (List ℕ → Option A) → FieldMap → String → Outcome FieldParseError A
parsed parse m name = bind (field m name) λ value. ok_or (parse value) (invalid_field name)

unfoldable pub parse_bool : List ℕ → Option Bool
parse_bool s =
    if same s (codes "true") then some true else if same s (codes "false") then some false else none

module _ {F64 : Type 0} (parse_f64 : List ℕ → Option F64) where
  -- `TimeStatusNp::parse_block`, on the map of its lines.
  unfoldable pub time_status_of : FieldMap → Outcome FieldParseError (TimeStatusNp F64)
  time_status_of m = bind (parsed (parse_signed 63) m "master_offset") λ master_offset_ns.
      bind (parsed (parse_signed 127) m "ingress_time") λ ingress_time.
        bind (parsed parse_f64 m "cumulativeScaledRateOffset") λ cumulative_scaled_rate_offset.
          bind (parsed parse_bool m "gmPresent") λ gm_present.
            bind (field m "gmIdentity") λ gm_identity. ok (record {
              master_offset_ns = master_offset_ns;
              ingress_time = ingress_time;
              cumulative_scaled_rate_offset = cumulative_scaled_rate_offset;
              gm_present = gm_present;
              gm_identity = gm_identity;
            })

  -- `CurrentDataSet::parse_block`
  unfoldable pub current_data_of : FieldMap → Outcome FieldParseError (CurrentDataSet F64)
  current_data_of m = bind (parsed (parse_unsigned 32) m "stepsRemoved") λ steps_removed.
      bind (parsed parse_f64 m "offsetFromMaster") λ offset_from_master_ns.
        bind (parsed parse_f64 m "meanPathDelay") λ mean_path_delay_ns. ok (record {
          steps_removed = steps_removed;
          offset_from_master_ns = offset_from_master_ns;
          mean_path_delay_ns = mean_path_delay_ns;
        })

-- `PortDataSet::parse_block`
unfoldable pub port_data_of : FieldMap → Outcome FieldParseError PortDataSet
port_data_of m = bind (field m "portIdentity") λ port_identity.
    bind (field m "portState") λ port_state.
      bind (parsed (parse_signed 7) m "logMinDelayReqInterval") λ log_min_delay_req_interval.
        bind (parsed (parse_signed 63) m "peerMeanPathDelay") λ peer_mean_path_delay.
          bind (parsed (parse_signed 7) m "logAnnounceInterval") λ log_announce_interval.
            bind (parsed (parse_unsigned 8) m "announceReceiptTimeout") λ announce_receipt_timeout.
              bind (parsed (parse_signed 7) m "logSyncInterval") λ log_sync_interval.
                bind (parsed (parse_unsigned 8) m "delayMechanism") λ delay_mechanism.
                  bind (parsed (parse_signed 7) m "logMinPdelayReqInterval")
                    λ log_min_pdelay_req_interval.
                      bind (parsed (parse_unsigned 8) m "versionNumber") λ version_number.
                        ok (record {
                          port_identity = port_identity;
                          port_state = parse_port_state port_state;
                          log_min_delay_req_interval = log_min_delay_req_interval;
                          peer_mean_path_delay = peer_mean_path_delay;
                          log_announce_interval = log_announce_interval;
                          announce_receipt_timeout = announce_receipt_timeout;
                          log_sync_interval = log_sync_interval;
                          delay_mechanism = delay_mechanism;
                          log_min_pdelay_req_interval = log_min_pdelay_req_interval;
                          version_number = version_number;
                        })

get-insert :
    (k j v : List ℕ) (m : FieldMap) → get k (insert j v m) ≡ (if same j k then some v else get k m)
unfolding get insert
get-insert k j v [] = refl
get-insert k j v ((i, w) ∷ m) =
    ground (arith, same-eq i j, same-eq i k, same_refl k, same-eq j k, get-insert k j v m)

abbrev or_else : Option (List ℕ) → Option (List ℕ) → Option (List ℕ)
or_else none b = b
or_else (some a) b = some a

abbrev line_value : List ℕ → Option (List ℕ × List ℕ) → Option (List ℕ)
line_value k none = none
line_value k (some (key, value)) = if same key k then some (trim value) else none

-- The value of the last line with this key, read off the lines themselves.
unfoldable pub value_of : List ℕ → List (List ℕ) → Option (List ℕ)
value_of k [] = none
value_of k (line ∷ lines) = or_else (value_of k lines) (line_value k (split_once_whitespace line))

or_else_assoc : (a b c : Option (List ℕ)) → or_else a (or_else b c) ≡ or_else (or_else a b) c
or_else_assoc none b c = refl
or_else_assoc (some x) b c = refl

or_else-none : (a : Option (List ℕ)) → or_else a none ≡ a
or_else-none none = refl
or_else-none (some x) = refl

get-insert_field :
    (k : List ℕ) (o : Option (List ℕ × List ℕ)) (m : FieldMap)
    → get k (insert_field m o) ≡ or_else (line_value k o) (get k m)
unfolding insert_field
get-insert_field k none m = refl
get-insert_field k (some (key, value)) m =
    get-insert k key (trim value) m
    ∙ elim (Bool-cases (same key k)) [ inl e ↦ rw e refl | inr e ↦ rw e refl ]

get-fill_map :
    (k : List ℕ) (lines : List (List ℕ)) (m : FieldMap)
    → get k (fill_map m lines) ≡ or_else (value_of k lines) (get k m)
unfolding fill_map value_of
get-fill_map k [] m = refl
get-fill_map k (line ∷ lines) m =
    get-fill_map k lines (insert_field m (split_once_whitespace line))
    ∙ ap (or_else (value_of k lines)) (get-insert_field k (split_once_whitespace line) m)
    ∙ or_else_assoc (value_of k lines) (line_value k (split_once_whitespace line)) (get k m)

-- For every key, the map of some lines holds what the last line with that key says, its value
-- trimmed; lines without a space hold nothing.
pub get-to_map : (k : List ℕ) (lines : List (List ℕ)) → get k (to_map lines) ≡ value_of k lines
unfolding to_map get
get-to_map k lines = get-fill_map k lines [] ∙ or_else-none (value_of k lines)
