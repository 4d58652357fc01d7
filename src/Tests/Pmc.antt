-- ===== src/Tests/Pmc.antt =====
-- An output of `pmc` for the properties of snapshots.
use rs.Prelude.{ℕ, ◌≡◌, ◌↔◌, refl, true, List, [], ◌∷◌, ◌++◌, map, Option}
use rs.Prelude.Int.{pos, negsuc}
use rs.Prelude.Text.{
  codes, same, is_whitespace, starts_with, contains, trim, trim_start, trim_end, lines,
  extend_first, split_whitespace, at_break, last, split_once_whitespace, digits, digits_from,
  parse_unsigned, parse_signed,
}
use rs.Io.{ok}
use rs.Prelude.Machine.{checked, fits}
use rs.Proto.State.{PtpSnapshot, slave, parse_port_state}
use rs.Proto.State.Fields.{
  to_map, get, get-to_map, value_of, fill_map, insert_field, insert, field, parsed, time_status_of,
  port_data_of, current_data_of, parse_bool,
}
use rs.Proto.State.Blocks.{parse_blocks, group_lines, group_line, close_block, push_line}
use rs.Proto.State.Blocks.Laws.{
  IsBody, IsResponse, Response, block_of, response_lines, parse_blocks-lines,
}
use rs.Proto.State.Snapshot.{parse_pmc_output, take_blocks, take_block, once, complete}
use rs.Proto.State.Snapshot.Scan.{blocks_of}
use rs.Proto.State.Snapshot.Laws.{
  IsAlone, time_lines, port_lines, current_lines, parse_pmc_output-ok,
}

-- Floating-point numbers whose texts are digits.
abbrev pub whole : List ℕ → Option ℕ
whole = digits

abbrev time_status : Response
time_status = record {
  kind = codes "TIME_STATUS_NP";
  first = codes "001122.fffe seq 0 RESPONSE MANAGEMENT TIME_STATUS_NP ";
  body =
      codes "\t\tmaster_offset -12"
      ∷ codes "\t\tingress_time   34"
      ∷ codes ""
      ∷ codes "\t\tcumulativeScaledRateOffset 0"
      ∷ codes "\t\tgmPresent true"
      ∷ codes "\t\tgmIdentity a.b"
      ∷ [];
}

abbrev text : List ℕ
text =
    codes
      "sending: GET TIME_STATUS_NP\n001122.fffe seq 0 RESPONSE MANAGEMENT TIME_STATUS_NP \r\n\t\tmaster_offset -12\n\t\tingress_time   34\n\n\t\tcumulativeScaledRateOffset 0\n\t\tgmPresent true\n\t\tgmIdentity a.b\n"

text_lines :
    lines text ≡ (codes "sending: GET TIME_STATUS_NP" ∷ []) ++ response_lines (time_status ∷ [])
unfolding lines extend_first
text_lines = refl

time_status-IsResponse : IsResponse time_status
unfolding trim trim_start trim_end is_whitespace starts_with contains split_whitespace at_break last
    extend_first
time_status-IsResponse = record {
  not_noise = refl;
  response = refl;
  not_indented = refl;
  named = refl;
  fields = (
    (λ e. (refl, refl)),
    (
      (λ e. (refl, refl)),
      ((λ e. cc), ((λ e. (refl, refl)), ((λ e. (refl, refl)), ((λ e. (refl, refl)), tt)))),
    ),
  );
}

sending-IsBody : IsBody (codes "sending: GET TIME_STATUS_NP")
unfolding trim trim_start trim_end is_whitespace starts_with contains
sending-IsBody = λ e. cc

parse_blocks-lines_example : parse_blocks text ≡ map block_of (time_status ∷ [])
parse_blocks-lines_example =
    parse_blocks-lines text (codes "sending: GET TIME_STATUS_NP" ∷ []) (time_status ∷ [])
      (sending-IsBody, tt) (time_status-IsResponse, tt) text_lines

abbrev pub printed : List ℕ
printed =
    codes
      "sending: GET TIME_STATUS_NP\n\ta RESPONSE MANAGEMENT TIME_STATUS_NP\n\t\tmaster_offset -12\n\t\tingress_time   34\n\t\tcumulativeScaledRateOffset 0\n\t\tgmPresent true\n\t\tgmIdentity a.b\n"
    ++ (codes
          "\ta RESPONSE MANAGEMENT PORT_DATA_SET\n\t\tportIdentity a-1\n\t\tportState SLAVE\n\t\tlogMinDelayReqInterval 0\n\t\tpeerMeanPathDelay 7\n\t\tlogAnnounceInterval 1\n\t\tannounceReceiptTimeout 3\n\t\tlogSyncInterval -3\n\t\tdelayMechanism 2\n\t\tlogMinPdelayReqInterval 0\n\t\tversionNumber 2\n"
        ++ codes
            "\ta RESPONSE MANAGEMENT CURRENT_DATA_SET\n\t\tstepsRemoved 1\n\t\toffsetFromMaster 4\n\t\tmeanPathDelay 5\n")

abbrev pub state : PtpSnapshot ℕ
state = record {
  time_status = record {
    master_offset_ns = negsuc 11;
    ingress_time = pos 34;
    cumulative_scaled_rate_offset = 0;
    gm_present = true;
    gm_identity = codes "a.b";
  };
  port_data = record {
    port_identity = codes "a-1";
    port_state = slave;
    log_min_delay_req_interval = pos 0;
    peer_mean_path_delay = pos 7;
    log_announce_interval = pos 1;
    announce_receipt_timeout = 3;
    log_sync_interval = negsuc 2;
    delay_mechanism = 2;
    log_min_pdelay_req_interval = pos 0;
    version_number = 2;
  };
  current_data = record { steps_removed = 1; offset_from_master_ns = 4; mean_path_delay_ns = 5 };
}

pub printed-state : parse_pmc_output whole printed ≡ ok state
unfolding parse_pmc_output parse_blocks group_lines group_line close_block push_line lines
    extend_first trim trim_start trim_end is_whitespace starts_with contains split_whitespace
    at_break last take_blocks take_block once complete same to_map fill_map insert_field insert get
    split_once_whitespace field parsed time_status_of port_data_of current_data_of parse_bool
    parse_port_state digits digits_from parse_unsigned parse_signed checked fits
printed-state = refl

abbrev time_block : List (List ℕ)
time_block =
    codes "master_offset -12"
    ∷ codes "ingress_time   34"
    ∷ codes "cumulativeScaledRateOffset 0"
    ∷ codes "gmPresent true"
    ∷ codes "gmIdentity a.b"
    ∷ []

abbrev port_block : List (List ℕ)
port_block =
    codes "portIdentity a-1"
    ∷ codes "portState SLAVE"
    ∷ codes "logMinDelayReqInterval 0"
    ∷ codes "peerMeanPathDelay 7"
    ∷ codes "logAnnounceInterval 1"
    ∷ codes "announceReceiptTimeout 3"
    ∷ codes "logSyncInterval -3"
    ∷ codes "delayMechanism 2"
    ∷ codes "logMinPdelayReqInterval 0"
    ∷ codes "versionNumber 2"
    ∷ []

abbrev current_block : List (List ℕ)
current_block = codes "stepsRemoved 1" ∷ codes "offsetFromMaster 4" ∷ codes "meanPathDelay 5" ∷ []

printed_blocks :
    (blocks_of "TIME_STATUS_NP" (parse_blocks printed) ≡ time_block ∷ [])
    × (blocks_of "PORT_DATA_SET" (parse_blocks printed) ≡ port_block ∷ [])
    × (blocks_of "CURRENT_DATA_SET" (parse_blocks printed) ≡ current_block ∷ [])
unfolding parse_blocks group_lines group_line close_block push_line lines extend_first trim
    trim_start trim_end is_whitespace starts_with contains split_whitespace at_break last same
    blocks_of
printed_blocks = (refl, refl, refl)

parse_pmc_output-ok_example : (parse_pmc_output whole printed ≡ ok state) ↔ (
    IsAlone whole (time_lines whole) time_block [] state.time_status
    × IsAlone whole (port_lines whole) port_block [] state.port_data
    × IsAlone whole (current_lines whole) current_block [] state.current_data)
parse_pmc_output-ok_example =
    parse_pmc_output-ok whole printed state time_block port_block current_block [] [] []
      printed_blocks.0 printed_blocks.1 printed_blocks.2

get-to_map_example :
    get (codes "a") (to_map (codes "a 1" ∷ codes "b 2" ∷ codes "a  3" ∷ []))
    ≡ value_of (codes "a") (codes "a 1" ∷ codes "b 2" ∷ codes "a  3" ∷ [])
get-to_map_example = get-to_map (codes "a") (codes "a 1" ∷ codes "b 2" ∷ codes "a  3" ∷ [])
