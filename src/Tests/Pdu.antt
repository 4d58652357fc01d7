-- ===== src/Tests/Pdu.antt =====
-- Packets that are written and read (src/avtp/avtpdu.rs), over lists of bits.
use rs.Prelude.{ℕ, ◌≡◌, ◌≢◌, ◌↔◌, refl, true, false, List, [], ◌∷◌, ◌++◌, arith}
use rs.Io.{ok, err, panic, io, unexpected_eof}
use rs.Io.Bytes.{be16, be32}
use rs.Avtp.Subtype
use rs.Avtp.Subtype.{
  Subtype, HeaderType, stream, control, alternative, unknown_subtype, continuous, discrete,
  encapsulation_style,
}
use rs.Avtp.StreamId.{StreamId}
use rs.Avtp.Headers.Stream.{StreamHeader}
use rs.Avtp.Headers.Frame.{stream_frame}
use rs.Avtp.Pdu.{Avtpdu, stream_pdu, control_pdu, header_type, subtype, common_header, read, write}
use rs.Avtp.Pdu.Frames.{IsValid, frame, read-write, read_truncated, write-frame}
use rs.Avtp.Pdu.Errors.{read-panic_iff}
use rs.Tests.Memory.{list_reader, list_writer}

abbrev pub talker : StreamId
talker = record { mac_address = 2 ∷ 0 ∷ 0 ∷ 0 ∷ 0 ∷ 7 ∷ []; unique_id = 1 }

abbrev pub audio : StreamHeader
audio = record {
  generic = record {
    common = record { subtype = Subtype.aaf; header_specific_bit = true; version = 0 };
    media_clock_restart = false;
    avtp_timestamp_valid = true;
    sequence_num = 9;
    timestamp_uncertain = false;
    stream_id = talker;
    avtp_timestamp = 1_000_000;
  };
  specific = record {
    format_specific_data = 0;
    format_specific_data_1 = 0;
    format_specific_data_2 = 4 ∷ 0x50 ∷ 2 ∷ 16 ∷ [];
    format_specific_data_3 = 0 ∷ 0 ∷ [];
    stream_data_payload = 1 ∷ 2 ∷ 3 ∷ 4 ∷ [];
  };
}

abbrev pub audio_pdu : Avtpdu
audio_pdu = stream_pdu audio

pub audio-IsValid : IsValid audio_pdu
unfolding Subtype.header_type
audio-IsValid = (
  record {
    generic = record {
      common = omega arith;
      sequence_fits = omega arith;
      stream_id = record { octets = refl; bytes = omega arith; uid = omega arith };
      timestamp_fits = omega arith;
    };
    specific = record {
      data_fits = omega arith;
      data_1_fits = omega arith;
      data_2_length = refl;
      data_2_bytes = omega arith;
      data_3_length = refl;
      data_3_bytes = omega arith;
      payload_bytes = omega arith;
      payload_length = omega arith;
    };
  },
  refl,
)

read-write_example :
    (bytes : List ℕ) × (write audio_pdu [] ≡ ok bytes)
    × (read (bytes ++ (0 ∷ 0 ∷ [])) ≡ ok audio_pdu)
read-write_example = read-write audio_pdu (0 ∷ 0 ∷ []) audio-IsValid (omega arith)

-- The packet on the wire.
audio_octets :
    frame audio_pdu
    ≡ 2 ∷ 0x81 ∷ 9 ∷ 0 ∷ 2 ∷ 0 ∷ 0 ∷ 0 ∷ 0 ∷ 7 ∷ 0 ∷ 1 ∷ 0 ∷ 0x0f ∷ 0x42 ∷ 0x40 ∷ 4 ∷ 0x50 ∷ 2 ∷ 16
      ∷ 0 ∷ 4 ∷ 0 ∷ 0 ∷ 1 ∷ 2 ∷ 3 ∷ 4 ∷ []
unfolding frame stream_frame be16 be32 Subtype.to_u8
audio_octets = refl

write-frame_example : write audio_pdu (9 ∷ []) ≡ ok ((9 ∷ []) ++ frame audio_pdu)
write-frame_example = write-frame audio_pdu (9 ∷ []) audio-IsValid (omega arith)

read_truncated_example : read (2 ∷ 0x81 ∷ []) ≡ err (io unexpected_eof)
read_truncated_example =
    read_truncated audio_pdu (2 ∷ 0x81 ∷ []) 9
      (0 ∷ 2 ∷ 0 ∷ 0 ∷ 0 ∷ 0 ∷ 7 ∷ 0 ∷ 1 ∷ 0 ∷ 0x0f ∷ 0x42 ∷ 0x40 ∷ 4 ∷ 0x50 ∷ 2 ∷ 16 ∷ 0 ∷ 4 ∷ 0
        ∷ 0 ∷ 1 ∷ 2 ∷ 3 ∷ 4 ∷ [])
      audio-IsValid audio_octets

read-panic_iff_example :
    (read (4 ∷ 0 ∷ []) ≡ panic)
    ↔ ((s : Subtype) × (Subtype.to_u8 s ≡ 4) × (Subtype.header_type s ≡ alternative))
read-panic_iff_example = read-panic_iff 4 0 [] (omega arith)

-- A clock reference packet makes the reader panic.
crf_panics : read (4 ∷ 0 ∷ []) ≡ panic
unfolding Subtype.to_u8 Subtype.header_type
crf_panics = read-panic_iff_example.1 (Subtype.crf, refl, refl)

eight_unknown : (s : Subtype) → Subtype.to_u8 s ≢ 8
unfolding Subtype.to_u8
eight_unknown Subtype.aaf e = omega arith
eight_unknown _ e = omega arith

-- A control packet that claims the audio subtype.
abbrev mislabelled : Avtpdu
mislabelled = control_pdu (record {
  common = record { subtype = Subtype.aaf; header_specific_bit = false; version = 0 };
  format_specific_data = 0;
  control_data_length = 0;
  stream_id = talker;
  control_data_payload = [];
})

is_mislabelled : Subtype.header_type (subtype mislabelled) ≢ header_type mislabelled
unfolding Subtype.header_type header_type common_header
is_mislabelled e = cc
