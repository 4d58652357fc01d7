-- ===== src/Avtp/Aaf/Stream/Talker.antt =====
-- What the talker sends (src/avtp/formats/aaf/stream.rs).
use rs.Prelude.{ℕ, ◌+◌, ◌%◌, ◌^◌, ◌<◌, ◌≡◌, ◌⊎◌, inl, inr, refl, false, List, All, arith}
use rs.Io.{Outcome, ok, err, panic, IsByte}
use mathlib.Core.Path.{subst}
use rs.Io.Outcomes.{bind_run}
use rs.Io.Stream.{BitWriter}
use rs.Ptp.Time.{PtpTime}
use rs.Avtp.StreamId
use rs.Avtp.Timestamp.{AvtpTimestamp, from_ptp_time, wrapping_add}
use rs.Avtp.Pdu.{stream_pdu}
use rs.Avtp.Aaf.Pcm
use rs.Avtp.Aaf.Pcm.{AafPcm}
use rs.Avtp.Aaf.Pcm.Laws.{made, new_iff, new_total}
use rs.Avtp.Aaf.Packet
use rs.Avtp.Aaf.Packet.{Aaf, pcm, validate_stream_data, into_header}
use rs.Avtp.Aaf.Packet.Laws as PacketLaws
use rs.Avtp.Aaf.Packet.Laws.{header_of, header_of-IsValid, into_header_run, validate_iff}
use rs.Avtp.Aaf.Stream.{AafPcmTalker, pcm_invalid, clock, talker_data, packet_at, build_packet}

-- The ranges of the Rust types.
pub record IsTalker {Clock : Type 0} (t : AafPcmTalker Clock) : Type 0 where
  pub stream_id : StreamId.IsValid t.stream_id
  pub channels_fit : t.channels < 2 ^ 10
  pub depth_fits : t.bit_depth < 2 ^ 8
  pub sequence_fits : t.sequence_num < 2 ^ 8

-- The audio, the presentation time and the packet of a talker.
abbrev pub audio : {Clock : Type 0} → AafPcmTalker Clock → List ℕ → AafPcm
audio t payload = record {
  nominal_sample_rate = t.sample_rate;
  channels_per_frame = t.channels;
  format = t.format;
  bit_depth = t.bit_depth;
  payload = payload;
}

abbrev pub presentation : {Clock : Type 0} → AafPcmTalker Clock → PtpTime → AvtpTimestamp
presentation t time = wrapping_add (from_ptp_time time) t.playback_delay_ns

abbrev pub packet : {Clock : Type 0} → AafPcmTalker Clock → PtpTime → List ℕ → Aaf
packet t time payload = record {
  stream_data = talker_data t (presentation t time);
  format_data = pcm (audio t payload);
  sparse_timestamp = false;
  event_flags = 0;
}

-- The talker once its packet is sent.
abbrev pub sent : {Clock : Type 0} → AafPcmTalker Clock → Clock → AafPcmTalker Clock
sent t c = record t { ptp_clock = c; sequence_num = (t.sequence_num + 1) % 2 ^ 8 }

presentation_fits : (s d : ℕ) → wrapping_add s d < 2 ^ 32
unfolding wrapping_add
presentation_fits s d = omega arith

data_accepted :
    {Clock : Type 0} (t : AafPcmTalker Clock) (ts : ℕ)
    → validate_stream_data (talker_data t ts) ≡ ok tt
data_accepted t ts =
    (validate_iff (talker_data t ts)).1
      (record { is_aaf = refl; has_stream_id = refl; version_zero = refl })

pub packet-IsValid :
    {Clock : Type 0} (t : AafPcmTalker Clock) (time : PtpTime) (payload : List ℕ)
    → IsTalker t
    → Pcm.IsValid (audio t payload)
    → PacketLaws.IsValid (packet t time payload)
packet-IsValid t time payload v p = record {
  generic = record {
    common = record { version_fits = omega arith };
    sequence_fits = v.sequence_fits;
    stream_id = v.stream_id;
    timestamp_fits = presentation_fits (from_ptp_time time) t.playback_delay_ns;
  };
  accepted = record { is_aaf = refl; has_stream_id = refl; version_zero = refl };
  variant = p;
  events_fit = omega arith;
}

module _ {Clock ClockError : Type 0} (ptp_time : Clock → Clock × Outcome ClockError PtpTime)
    ⦃w : BitWriter⦄ where
  packet_at_run :
      (t : AafPcmTalker Clock) (time : PtpTime) (payload : List ℕ)
      → IsTalker t
      → Pcm.IsValid (audio t payload)
      → packet_at ptp_time t time payload ≡ ok (stream_pdu (header_of (packet t time payload)))
  unfolding packet_at made
  packet_at_run t time payload v p =
      let built : Pcm.new t.sample_rate t.channels t.format t.bit_depth payload
          ≡ ok (audio t payload) =
        (new_iff t.sample_rate t.channels t.format t.bit_depth payload (audio t payload)
            v.channels_fit v.depth_fits p.payload_bytes).1
          (refl, p) in
      let checked : Packet.new (talker_data t (presentation t time)) (pcm (audio t payload)) false 0
          ≡ ok (packet t time payload) =
        unfold Packet.new in bind_run _ (data_accepted t (presentation t time)) refl in
      rw (packet_at, built)
        (rw checked
          (rw (into_header_run (packet t time payload) (packet-IsValid t time payload v p)) refl))

  -- With a reading of the clock, and audio that fits the talker's format, the talker sends the
  -- packet of this audio and this time, and counts it.
  pub build_packet_run :
      (t : AafPcmTalker Clock) (payload : List ℕ) (c : Clock) (time : PtpTime)
      → IsTalker t
      → Pcm.IsValid (audio t payload)
      → ptp_time t.ptp_clock ≡ (c, ok time)
      → build_packet ptp_time t payload
        ≡ (sent t c, ok (stream_pdu (header_of (packet t time payload))))
  unfolding build_packet
  build_packet_run t payload c time v p e =
      rw (build_packet, e)
        (rw
          (packet_at_run (record t { ptp_clock = c }) time payload
            (record {
              stream_id = v.stream_id;
              channels_fit = v.channels_fit;
              depth_fits = v.depth_fits;
              sequence_fits = v.sequence_fits;
            })
            p)
          refl)

  -- Where the clock fails nothing is sent, and the sequence number stays.
  pub build_packet-clock :
      (t : AafPcmTalker Clock) (payload : List ℕ) (c : Clock) (x : ClockError)
      → ptp_time t.ptp_clock ≡ (c, err x)
      → build_packet ptp_time t payload ≡ (record t { ptp_clock = c }, err (clock x))
  unfolding build_packet
  build_packet-clock t payload c x e = rw (build_packet, e) refl

  -- Audio that does not fit the talker's format is refused, and the sequence number stays.
  pub build_packet_refused :
      (t : AafPcmTalker Clock) (payload : List ℕ) (c : Clock) (time : PtpTime)
      (x : Pcm.InvalidPcmAaf)
      → ptp_time t.ptp_clock ≡ (c, ok time)
      → Pcm.new t.sample_rate t.channels t.format t.bit_depth payload ≡ err x
      → build_packet ptp_time t payload ≡ (record t { ptp_clock = c }, err (pcm_invalid x))
  unfolding build_packet packet_at
  build_packet_refused t payload c time x e f = rw (build_packet, e) (rw (packet_at, f) refl)

  -- Where the clock gives a time, the talker's fields are in the ranges of their types and the
  -- payload is octets: either the payload makes well-formed audio, and the talker returns its
  -- packet at this time and moves its sequence number on; or `AafPcm::new` refuses it, and the
  -- talker returns this error and keeps its sequence number.
  pub build_packet_cases :
      (t : AafPcmTalker Clock) (payload : List ℕ) (c : Clock) (time : PtpTime)
      → IsTalker t
      → All IsByte payload
      → ptp_time t.ptp_clock ≡ (c, ok time)
      → (Pcm.IsValid (audio t payload)
          × (build_packet ptp_time t payload
              ≡ (sent t c, ok (stream_pdu (header_of (packet t time payload))))))
        ⊎ ((x : Pcm.InvalidPcmAaf) × (Pcm.new t.sample_rate t.channels t.format t.bit_depth payload
              ≡ err x)
            × (build_packet ptp_time t payload ≡ (record t { ptp_clock = c }, err (pcm_invalid x))))
  unfolding made
  build_packet_cases t payload c time v h e =
      go (Pcm.new t.sample_rate t.channels t.format t.bit_depth payload) refl
    where
      go :
          (o : Outcome Pcm.InvalidPcmAaf AafPcm)
          → Pcm.new t.sample_rate t.channels t.format t.bit_depth payload ≡ o
          → (Pcm.IsValid (audio t payload)
              × (build_packet ptp_time t payload
                  ≡ (sent t c, ok (stream_pdu (header_of (packet t time payload))))))
            ⊎ ((x : Pcm.InvalidPcmAaf) × (Pcm.new t.sample_rate t.channels t.format t.bit_depth
                    payload
                  ≡ err x)
                × (build_packet ptp_time t payload
                    ≡ (record t { ptp_clock = c }, err (pcm_invalid x))))
      go panic f = absurd (new_total t.sample_rate t.channels t.format t.bit_depth payload f)
      go (err x) f = inr (x, f, build_packet_refused t payload c time x e f)
      go (ok p) f =
          let (same, good) =
            (new_iff t.sample_rate t.channels t.format t.bit_depth payload p v.channels_fit
                v.depth_fits h).0
              f in
          let valid : Pcm.IsValid (audio t payload) = unfold made in subst Pcm.IsValid same good in
          inl (valid, build_packet_run t payload c time v valid e)
