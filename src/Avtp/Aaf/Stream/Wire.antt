-- ===== src/Avtp/Aaf/Stream/Wire.antt =====
-- From the talker over the wire to the listener (src/avtp/formats/aaf/stream.rs,
-- src/avtp/avtpdu.rs, src/avtp/timestamp.rs).
use rs.Prelude.{ℕ, ◌^◌, ◌<◌, ◌≡◌, refl, ap, ◌∙◌, true, List, [], ◌++◌, All, some}
use rs.Prelude.Int.{pos, ◌+ℤ◌}
use rs.Prelude.Machine.{distance}
use rs.Io.{Outcome, ok, IsByte}
use rs.Io.Stream.{BitReader, BitWriter}
use rs.Ptp.Time.{PtpTime, as_nanos}
use rs.Ptp.Time as Time
use rs.Avtp.Subtype
use rs.Avtp.Timestamp.{expand_near}
use rs.Avtp.Timestamp.Laws.{expand_near-from_ptp_time, wrapping_add-from_ptp_time}
use rs.Avtp.Headers.Stream.{StreamHeader}
use rs.Avtp.Pdu.{Avtpdu, stream_pdu, read, write}
use rs.Avtp.Pdu.Frames.{read-write}
use rs.Avtp.Aaf.Pcm
use rs.Avtp.Aaf.Packet.Laws.{header_of, header_of-IsValid}
use rs.Avtp.Aaf.Packet.Parse.{from_header-header_of}
use rs.Avtp.Aaf.Stream.{AafPcmTalker, AafPcmListener, build_packet, process, matches, lost}
use rs.Avtp.Aaf.Stream.Talker.{
  IsTalker, audio, packet, presentation, sent, packet-IsValid, build_packet_run,
}
use rs.Avtp.Aaf.Stream.Listener.{counted, received, process_run}

module _ {Clock ClockError : Type 0} (ptp_time : Clock → Clock × Outcome ClockError PtpTime)
    ⦃r : BitReader⦄ ⦃w : BitWriter⦄ where
  -- Where the clock gives a time, the talker's fields are in the ranges of their types, the
  -- payload makes well-formed audio in its format, and the listener's filter accepts its stream,
  -- the packet that `build_packet` returns is written to an empty buffer, read back from these
  -- bytes whatever bytes follow, and `process` returns from it the same payload, format, rate,
  -- channels, depth and sequence number, the presentation time, and the gap since the listener's
  -- last packet; the talker and the listener count the packet.
  pub delivered :
      (t : AafPcmTalker Clock) (l : AafPcmListener) (payload trailer : List ℕ) (c : Clock)
      (time : PtpTime)
      → IsTalker t
      → Pcm.IsValid (audio t payload)
      → All IsByte trailer
      → ptp_time t.ptp_clock ≡ (c, ok time)
      → matches l.filter t.stream_id ≡ true
      → (pdu : Avtpdu) × (bytes : List ℕ) × (build_packet ptp_time t payload ≡ (sent t c, ok pdu))
        × (write pdu [] ≡ ok bytes)
        × (read (bytes ++ trailer) ≡ ok pdu)
        × (process l pdu ≡ (
          counted l t.sequence_num,
          ok (
              some (record {
                avtp_timestamp = presentation t time;
                seq_num = t.sequence_num;
                payload_be = payload;
                sample_rate = t.sample_rate;
                channels = t.channels;
                bit_depth = t.bit_depth;
                format = t.format;
                packets_lost = lost l.expected_seq t.sequence_num;
              })),
        ))
  unfolding received header_of Subtype.header_type
  delivered t l payload trailer c time v p h e m =
      let a = packet t time payload in
      let good = packet-IsValid t time payload v p in
      let pdu = stream_pdu (header_of a) in
      let (bytes, written, same) = read-write pdu trailer (header_of-IsValid a good, refl) h in
      (
        pdu,
        bytes,
        build_packet_run ptp_time t payload c time v p e,
        written,
        same,
        process_run l (header_of a) a (audio t payload) (from_header-header_of a good) refl m,
      )

  -- Where the clock gives a valid time, the talker's fields are in the ranges of their types, the
  -- payload makes well-formed audio in its format, and `due`, a valid time less than 2 ^ 31
  -- nanoseconds away from the reference, is that time and the playback delay: `build_packet`
  -- returns a stream packet and counts it, and the timestamp in its header is marked as valid and
  -- expands near the reference to `due`.
  pub presented :
      (t : AafPcmTalker Clock) (payload : List ℕ) (c : Clock) (time due reference : PtpTime)
      → IsTalker t
      → Pcm.IsValid (audio t payload)
      → ptp_time t.ptp_clock ≡ (c, ok time)
      → Time.IsValid time
      → Time.IsValid due
      → as_nanos due ≡ as_nanos time +ℤ pos t.playback_delay_ns
      → distance (as_nanos due) (as_nanos reference) < 2 ^ 31
      → (header : StreamHeader) × (build_packet ptp_time t payload
          ≡ (sent t c, ok (stream_pdu header)))
        × (header.generic.avtp_timestamp_valid ≡ true)
        × (expand_near header.generic.avtp_timestamp reference ≡ ok due)
  unfolding header_of
  presented t payload c time due reference v p e vt vd d near = (
    header_of (packet t time payload),
    build_packet_run ptp_time t payload c time v p e,
    refl,
    ap (λ ts. expand_near ts reference)
          (wrapping_add-from_ptp_time time due t.playback_delay_ns vt vd d)
        ∙ expand_near-from_ptp_time due reference vd near,
  )
