-- ===== src/Tests/Audio.antt =====
-- An audio stream from talker to listener (src/avtp/formats/aaf), over lists of bits.
use rs.Prelude.{
  ℕ, ◌+◌, ◌^◌, ◌<◌, ◌≡◌, ◌≢◌, ◌↔◌, ◌⊎◌, refl, true, List, [], ◌∷◌, ◌++◌, Option, some, arith,
}
use rs.Prelude.Int.{pos, ◌+ℤ◌, ◌*ℤ◌}
use rs.Prelude.Machine.{distance, saturated}
use rs.Io.{Outcome, ok, err, panic, IoError}
use rs.Ptp.Time.{PtpTime, as_nanos}
use rs.Ptp.Time as Time
use rs.Avtp.StreamId.{StreamId}
use rs.Avtp.Timestamp.{expand_near}
use rs.Avtp.Headers.Stream.{StreamHeader}
use rs.Avtp.Pdu.{Avtpdu, stream_pdu, read, write}
use rs.Avtp.Aaf.Pcm
use rs.Avtp.Aaf.Pcm.{
  AafPcm, PcmFormat, SampleRate, InvalidPcmAaf, new, word_size, sample_count, from_hz, rate,
  rate_try_from, protocol_value, from_specific,
}
use rs.Avtp.Aaf.Pcm.Laws.{made, new_iff}
use rs.Avtp.Aaf.Pcm.Specific.{specific_of, from_specific-specific_of}
use rs.Avtp.Aaf.Packet.{Aaf, InvalidAaf, from_header}
use rs.Avtp.Aaf.Packet.Laws as PacketLaws
use rs.Avtp.Aaf.Packet.Laws.{IsAaf, header_of, header_of-IsValid, validate_iff}
use rs.Avtp.Aaf.Packet.Parse.{from_header-header_of, from_header-IsValid}
use rs.Avtp.Aaf.Stream.{
  AafPcmTalker, AafPcmListener, ReceivedPcm, exact, matches, build_packet, process, lost,
  pcm_invalid,
}
use rs.Avtp.Aaf.Stream.Talker.{
  IsTalker, audio, packet, presentation, sent, packet-IsValid, build_packet_cases,
}
use rs.Avtp.Aaf.Stream.Listener.{
  counted, received, process_run, IsAudio, matches_iff, process_cases, process_lost, process_total,
}
use rs.Avtp.Aaf.Stream.Wire.{delivered, presented}
use rs.Tests.Memory.{list_reader, list_writer}

abbrev id : StreamId
id = record { mac_address = 2 ∷ 0 ∷ 0 ∷ 0 ∷ 0 ∷ 7 ∷ []; unique_id = 1 }

-- Two channels of 16 bits, at sequence number 255, on a clock that ticks.
abbrev talker : AafPcmTalker ℕ
talker = record {
  stream_id = id;
  format = PcmFormat.int_16_bit;
  sample_rate = SampleRate.khz48;
  channels = 2;
  bit_depth = 16;
  sequence_num = 255;
  ptp_clock = 0;
  playback_delay_ns = 50_000_000;
}

abbrev now : PtpTime
now = record { seconds = pos 5; nanoseconds = 7 }

abbrev ticking : ℕ → ℕ × Outcome IoError PtpTime
ticking c = (c + 1, ok now)

talker-IsTalker : IsTalker talker
talker-IsTalker = record {
  stream_id = record { octets = refl; bytes = omega arith; uid = omega arith };
  channels_fit = omega arith;
  depth_fits = omega arith;
  sequence_fits = omega arith;
}

-- Two frames of two samples.
abbrev samples : List ℕ
samples = 1 ∷ 2 ∷ 3 ∷ 4 ∷ 5 ∷ 6 ∷ 7 ∷ 8 ∷ []

accepted_samples :
    new SampleRate.khz48 2 PcmFormat.int_16_bit 16 samples ≡ ok (audio talker samples)
unfolding new Pcm.validated_bit_depth Pcm.validate_payload_size word_size
accepted_samples = refl

new_iff_example :
    (new SampleRate.khz48 2 PcmFormat.int_16_bit 16 samples ≡ ok (audio talker samples)) ↔ (
      (audio talker samples ≡ made SampleRate.khz48 2 PcmFormat.int_16_bit 16 samples)
      × Pcm.IsValid (audio talker samples))
new_iff_example =
    new_iff SampleRate.khz48 2 PcmFormat.int_16_bit 16 samples (audio talker samples) (omega arith)
      (omega arith) (omega arith)

audio-IsValid : Pcm.IsValid (audio talker samples)
audio-IsValid = (new_iff_example.0 accepted_samples).1

abbrev listener : AafPcmListener
listener = record { filter = exact id; expected_seq = some 253 }

delivered_example :
    (pdu : Avtpdu) × (bytes : List ℕ) × (build_packet ticking talker samples
      ≡ (sent talker 1, ok pdu))
    × (write pdu [] ≡ ok bytes)
    × (read (bytes ++ (0 ∷ [])) ≡ ok pdu)
    × (process listener pdu ≡ (
      counted listener 255,
      ok (
          some (record {
            avtp_timestamp = presentation talker now;
            seq_num = 255;
            payload_be = samples;
            sample_rate = SampleRate.khz48;
            channels = 2;
            bit_depth = 16;
            format = PcmFormat.int_16_bit;
            packets_lost = lost (some 253) 255;
          })),
    ))
delivered_example =
    delivered ticking talker listener samples (0 ∷ []) 1 now talker-IsTalker audio-IsValid
      (omega arith) refl ((matches_iff (exact id) id).1 refl)

abbrev due : PtpTime
due = record { seconds = pos 5; nanoseconds = 50_000_007 }

now-IsValid : Time.IsValid now
now-IsValid = record { seconds_fit = omega arith; normalized = omega arith }

due-IsValid : Time.IsValid due
due-IsValid = record { seconds_fit = omega arith; normalized = omega arith }

delayed : as_nanos due ≡ as_nanos now +ℤ pos 50_000_000
unfolding as_nanos saturated ◌+ℤ◌ ◌*ℤ◌
delayed = refl

near : distance (as_nanos due) (as_nanos now) < 2 ^ 31
unfolding as_nanos saturated distance ◌+ℤ◌ ◌*ℤ◌
near = omega arith

presented_example :
    (header : StreamHeader) × (build_packet ticking talker samples
      ≡ (sent talker 1, ok (stream_pdu header)))
    × (header.generic.avtp_timestamp_valid ≡ true)
    × (expand_near header.generic.avtp_timestamp now ≡ ok due)
presented_example =
    presented ticking talker samples 1 now due now talker-IsTalker audio-IsValid refl now-IsValid
      due-IsValid delayed near

-- One sample is not a whole frame of two channels.
build_packet_cases_example :
    (Pcm.IsValid (audio talker (1 ∷ 2 ∷ []))
      × (build_packet ticking talker (1 ∷ 2 ∷ [])
          ≡ (sent talker 1, ok (stream_pdu (header_of (packet talker now (1 ∷ 2 ∷ [])))))))
    ⊎ ((x : InvalidPcmAaf) × (new SampleRate.khz48 2 PcmFormat.int_16_bit 16 (1 ∷ 2 ∷ []) ≡ err x)
        × (build_packet ticking talker (1 ∷ 2 ∷ [])
            ≡ (record talker { ptp_clock = 1 }, err (pcm_invalid x))))
build_packet_cases_example =
    build_packet_cases ticking talker (1 ∷ 2 ∷ []) 1 now talker-IsTalker (omega arith) refl

abbrev sound : Aaf
sound = packet talker now samples

sound-IsValid : PacketLaws.IsValid sound
sound-IsValid = packet-IsValid talker now samples talker-IsTalker audio-IsValid

from_header-header_of_example : from_header (header_of sound) ≡ ok sound
from_header-header_of_example = from_header-header_of sound sound-IsValid

from_header-IsValid_example :
    PacketLaws.IsValid sound × (sound.stream_data ≡ (header_of sound).generic)
from_header-IsValid_example =
    from_header-IsValid (header_of sound) sound (header_of-IsValid sound sound-IsValid)
      from_header-header_of_example

process_total_example : (process listener (stream_pdu (header_of sound))).1 ≢ panic
process_total_example =
    process_total listener (header_of sound) (header_of-IsValid sound sound-IsValid)

process_cases_example :
    ((q : Outcome InvalidAaf (Option ReceivedPcm)) × (process listener
          (stream_pdu (header_of sound))
        ≡ (listener, q))
      × ((x : ReceivedPcm) → q ≢ ok (some x)))
    ⊎ IsAudio listener (stream_pdu (header_of sound))
process_cases_example = process_cases listener (stream_pdu (header_of sound))

heard :
    (l : AafPcmListener) (n : ℕ) (t : AafPcmTalker ℕ)
    → t ≡ record talker { sequence_num = n }
    → n < 2 ^ 8
    → matches l.filter id ≡ true
    → process l (stream_pdu (header_of (packet (record talker { sequence_num = n }) now samples)))
      ≡ (
        counted l n,
        ok (
            some (
              received l.expected_seq
                (packet (record talker { sequence_num = n }) now samples)
                (audio talker samples))),
      )
heard l n t e h m =
    let s = record talker { sequence_num = n } in
    let valid =
      packet-IsValid s now samples
        (record {
          stream_id = talker-IsTalker.stream_id;
          channels_fit = omega arith;
          depth_fits = omega arith;
          sequence_fits = h;
        })
        audio-IsValid in
    process_run l (header_of (packet s now samples)) (packet s now samples) (audio talker samples)
      (from_header-header_of (packet s now samples) valid) refl m

abbrev heard_packet : Option ℕ → ℕ → ReceivedPcm
heard_packet expected n =
    received expected (packet (record talker { sequence_num = n }) now samples)
      (audio talker samples)

-- Packet 255 and then packet 3: packets 0, 1 and 2 were lost.
process_lost_example : (heard_packet (some 0) 3).packets_lost ≡ 3
unfolding received
process_lost_example =
    process_lost listener (counted listener 255) (counted (counted listener 255) 3)
      (stream_pdu (header_of (packet (record talker { sequence_num = 255 }) now samples)))
      (stream_pdu (header_of (packet (record talker { sequence_num = 3 }) now samples)))
      (heard_packet (some 253) 255) (heard_packet (some 0) 3) 3
      (heard listener 255 talker refl (omega arith) ((matches_iff (exact id) id).1 refl))
      (heard (counted listener 255) 3 (record talker { sequence_num = 3 }) refl (omega arith)
        ((matches_iff (exact id) id).1 refl))
      (omega arith) refl

from_specific-specific_of_example :
    from_specific (specific_of (audio talker samples)) ≡ ok (audio talker samples)
from_specific-specific_of_example = from_specific-specific_of (audio talker samples) audio-IsValid
