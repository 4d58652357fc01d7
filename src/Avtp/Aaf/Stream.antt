-- ===== src/Avtp/Aaf/Stream.antt =====
-- src/avtp/formats/aaf/stream.rs: the talker and the listener of an audio stream, and the filter of
-- src/avtp/stream.rs.
pub mod Talker
pub mod Wire
pub mod Listener
use rs.Prelude.{
  ℕ, ◌+◌, ◌-◌, ◌*◌, ◌%◌, ◌^◌, ◌<◌, ◌≡◌, Bool, true, false, List, length, Option, none, some, ◌==◌,
  if◌then◌else◌, [], ◌∷◌,
}
use rs.Io.{Outcome, ok, err, panic, map_err, unwrap}
use rs.Io.Stream.{BitReader, BitWriter}
use rs.Ptp.Time.{PtpTime}
use rs.Avtp.StreamId.{StreamId}
use rs.Avtp.Subtype.{Subtype}
use rs.Avtp.Timestamp.{AvtpTimestamp, from_ptp_time, wrapping_add}
use rs.Avtp.Headers.Stream.{GenericStreamData}
use rs.Avtp.Pdu.{Avtpdu, stream_pdu, control_pdu, alternative_pdu}
use rs.Avtp.Aaf.Pcm
use rs.Avtp.Aaf.Pcm.{AafPcm, PcmFormat, SampleRate, InvalidPcmAaf}
use rs.Avtp.Aaf.Packet
use rs.Avtp.Aaf.Packet.{Aaf, AafVariant, InvalidAaf, pcm, aes3, from_header, into_header}

-- `==` of two MAC addresses, octet by octet.
abbrev pub octets_eq : List ℕ → List ℕ → Bool
octets_eq [] [] = true
octets_eq [] (y ∷ ys) = false
octets_eq (x ∷ xs) [] = false
octets_eq (x ∷ xs) (y ∷ ys) = let rest = octets_eq xs ys in if x == y then rest else false

-- `==` of two stream IDs.
abbrev pub stream_id_eq : StreamId → StreamId → Bool
stream_id_eq a b =
    if octets_eq a.mac_address b.mac_address then a.unique_id == b.unique_id else false

pub data StreamFilter : Type 0 where
  any : StreamFilter
  mac_only : List ℕ → StreamFilter
  exact : StreamId → StreamFilter

unfoldable pub matches : StreamFilter → StreamId → Bool
matches any stream_id = true
matches (mac_only mac) stream_id = octets_eq stream_id.mac_address mac
matches (exact id) stream_id = stream_id_eq stream_id id

pub data AafPcmTalkerConfigError : Type 0 where
  bit_depth_zero channels_per_frame_zero : AafPcmTalkerConfigError

-- The clock's errors are the parameter's.
pub data AafPcmTalkerError (ClockError : Type 0) : Type 0 where
  pcm_invalid : InvalidPcmAaf → AafPcmTalkerError ClockError
  clock : ClockError → AafPcmTalkerError ClockError

pub record ReceivedPcm : Type 0 where
  pub avtp_timestamp : AvtpTimestamp
  pub seq_num : ℕ
  pub payload_be : List ℕ
  pub sample_rate : SampleRate
  pub channels : ℕ
  pub bit_depth : ℕ
  pub format : PcmFormat
  pub packets_lost : ℕ

pub record AafPcmTalker (Clock : Type 0) : Type 0 where
  pub stream_id : StreamId
  pub format : PcmFormat
  pub sample_rate : SampleRate
  pub channels : ℕ
  pub bit_depth : ℕ
  pub sequence_num : ℕ
  pub ptp_clock : Clock
  pub playback_delay_ns : ℕ

-- The delay wraps in a u32, as release builds compute it.
unfoldable pub new_talker :
    {Clock : Type 0}
    → StreamId
    → PcmFormat
    → SampleRate
    → ℕ
    → ℕ
    → Clock
    → ℕ
    → Outcome AafPcmTalkerConfigError (AafPcmTalker Clock)
new_talker stream_id format sample_rate channels bit_depth ptp_clock playback_delay_ms =
    if bit_depth == 0
    then err bit_depth_zero
    else if channels == 0
    then err channels_per_frame_zero
    else ok (record {
      stream_id = stream_id;
      format = format;
      sample_rate = sample_rate;
      channels = channels;
      bit_depth = bit_depth;
      sequence_num = 0;
      ptp_clock = ptp_clock;
      playback_delay_ns = playback_delay_ms * 1_000_000 % 2 ^ 32;
    })

-- The metadata that the talker puts on the packet.
abbrev pub talker_data : {Clock : Type 0} → AafPcmTalker Clock → AvtpTimestamp → GenericStreamData
talker_data t timestamp = record {
  common = record { subtype = Subtype.aaf; header_specific_bit = true; version = 0 };
  media_clock_restart = false;
  avtp_timestamp_valid = true;
  sequence_num = t.sequence_num;
  timestamp_uncertain = false;
  stream_id = t.stream_id;
  avtp_timestamp = timestamp;
}

-- The synchronized clock is read through this interface; a reading moves the clock on.
module _ {Clock ClockError : Type 0} (ptp_time : Clock → Clock × Outcome ClockError PtpTime) where
  module _ ⦃w : BitWriter⦄ where
    -- The packet that is made at a time, and the conversion of a checked packet.
    unfoldable pub packet_at :
        AafPcmTalker Clock → PtpTime → List ℕ → Outcome (AafPcmTalkerError ClockError) Avtpdu
    packet_at t time payload =
        let avtp_timestamp = wrapping_add (from_ptp_time time) t.playback_delay_ns in
        elim (Pcm.new t.sample_rate t.channels t.format t.bit_depth payload) [
          | err e ↦ err (pcm_invalid e)
          | panic ↦ panic
          | ok p ↦ elim (Packet.new (talker_data t avtp_timestamp) (pcm p) false 0) [
            | err _ ↦ panic
            | panic ↦ panic
            | ok a ↦ elim (into_header {E = AafPcmTalkerError ClockError} a) [
              | ok header ↦ ok (stream_pdu header)
              | err e ↦ err e
              | panic ↦ panic
            ]
          ]
        ]

    -- The talker after the call, and its result: the sequence number moves on after a packet only.
    unfoldable pub build_packet :
        AafPcmTalker Clock
        → List ℕ
        → AafPcmTalker Clock × Outcome (AafPcmTalkerError ClockError) Avtpdu
    build_packet t payload = go (ptp_time t.ptp_clock)
      where
        advance :
            AafPcmTalker Clock
            → Outcome (AafPcmTalkerError ClockError) Avtpdu
            → AafPcmTalker Clock × Outcome (AafPcmTalkerError ClockError) Avtpdu
        advance t (ok pdu) = (record t { sequence_num = (t.sequence_num + 1) % 2 ^ 8 }, ok pdu)
        advance t (err e) = (t, err e)
        advance t panic = (t, panic)

        go :
            Clock × Outcome ClockError PtpTime
            → AafPcmTalker Clock × Outcome (AafPcmTalkerError ClockError) Avtpdu
        go (c, ok time) =
            advance (record t { ptp_clock = c })
              (packet_at (record t { ptp_clock = c }) time payload)
        go (c, err e) = (record t { ptp_clock = c }, err (clock e))
        go (c, panic) = (record t { ptp_clock = c }, panic)

pub record AafPcmListener : Type 0 where
  pub filter : StreamFilter
  pub expected_seq : Option ℕ

unfoldable pub new_listener : Option StreamId → AafPcmListener
new_listener none = record { filter = any; expected_seq = none }
new_listener (some id) = record { filter = exact id; expected_seq = none }

unfoldable pub new_with_mac_filter : List ℕ → AafPcmListener
new_with_mac_filter mac = record { filter = mac_only mac; expected_seq = none }

-- `seq_num.wrapping_sub(expected)`, or 0 for the first packet.
unfoldable pub lost : Option ℕ → ℕ → ℕ
lost none seq_num = 0
lost (some expected) seq_num = (seq_num + 2 ^ 8 - expected) % 2 ^ 8

-- The listener after a packet that parsed, and what it returns.
unfoldable pub accept : AafPcmListener → Aaf → AafPcmListener × Option ReceivedPcm
accept l a = elim (matches l.filter a.stream_data.stream_id) [
  | false ↦ (l, none)
  | true ↦ elim a.format_data [
    | aes3 _ ↦ (l, none)
    | pcm p ↦ (
      record l { expected_seq = some ((a.stream_data.sequence_num + 1) % 2 ^ 8) },
      some (record {
        avtp_timestamp = a.stream_data.avtp_timestamp;
        seq_num = a.stream_data.sequence_num;
        payload_be = p.payload;
        sample_rate = p.nominal_sample_rate;
        channels = p.channels_per_frame;
        bit_depth = p.bit_depth;
        format = p.format;
        packets_lost = lost l.expected_seq a.stream_data.sequence_num;
      }),
    )
  ]
]

module _ ⦃r : BitReader⦄ where
  unfoldable pub process :
      AafPcmListener → Avtpdu → AafPcmListener × Outcome InvalidAaf (Option ReceivedPcm)
  process l (control_pdu _) = (l, ok none)
  process l (alternative_pdu _) = (l, ok none)
  process l (stream_pdu h) = elim (from_header h) [
    | err e ↦ (l, err e)
    | panic ↦ (l, panic)
    | ok a ↦ let (l', received) = accept l a in (l', ok received)
  ]
