-- ===== src/Tests/Wav.antt =====
-- Files and headers for the properties of WAV files.
use rs.Prelude.Text.{same}
use rs.Prelude.{
  ◌-◌, ◌^◌, inl, ◌≡◌, ◌⊎◌, ◌↔◌, refl, true, [], ◌∷◌, ◌++◌, length, ltb, if◌then◌else◌, some, none,
  arith,
}
use rs.Io.{ok, err, invalid_input, unexpected_eof}
use rs.Io.Octets.{Source, vec, le16, le32}
use rs.Io.Pieces.{source}
use rs.Avtp.Aaf.Pcm.{int_24_bit, word_size}
use rs.Avtp.Aaf.Pcm.FromWav.{from_wav_header, encoding_of, from_wav_header-ok}
use rs.Audio.Wav.{
  WavChunk, WavHeader, WavPreamble, Wav, WavError, invalid_chunk_size, fmt, riff, wave, pcm,
  audio_format_u16, audio_format_from,
}
use rs.Audio.Wav.Chunk.{
  IsWritable, serialized_size, serialized_sizes, chunk_bytes, chunks_bytes, padding,
}
use rs.Audio.Wav.Header.{
  from_fmt_chunk_unchecked, into_wav_chunk, needs_extensible_format, needs_extensible,
  is_extensible, written_extension, is_pcm, extensible_fmt_extension,
}
use rs.Audio.Wav.Header.Laws.{
  IsHeader, from_fmt_chunk_unchecked-into_wav_chunk, from_fmt_chunk_unchecked_short,
}
use rs.Audio.Wav.Header.Stored.{IsStored}
use rs.Audio.Wav.Preamble.{read_preamble, write_stream}
use rs.Audio.Wav.Preamble.Laws.{IsPlain, riff_bytes}
use rs.Audio.Wav.Preamble.Whole.{IsFaithful, preamble_bytes, with_extension}
use rs.Audio.Wav.Preamble.Streamed.{streamed, stream_bytes, read_preamble-write_stream}
use rs.Audio.Wav.File.{read_wav, write_wav, riff_size, data_chunk, fmt_chunk}
use rs.Audio.Wav.File.Ends.{read_wav_ends}
use rs.Audio.Wav.File.Written.{body_bytes, wav_bytes, write_wav-riff_size}
use rs.Audio.Wav.File.Laws.{IsStorable, reloaded, read_wav-write_wav}

-- 24 bits, so that the writer makes an extensible header.
abbrev stereo_24 : WavHeader
stereo_24 = record {
  channels = 2;
  sample_rate = 48000;
  bits_per_sample = 24;
  valid_bits_per_sample = 24;
  audio_format = pcm;
}

stereo_24-IsHeader : IsHeader stereo_24
unfolding audio_format_u16 audio_format_from
stereo_24-IsHeader = record {
  channels = omega arith;
  sample_rate = omega arith;
  bits = omega arith;
  valid_bits = omega arith;
  tag = omega arith;
  canonical = refl;
}

stereo_24_needs : needs_extensible_format stereo_24 ≡ true
unfolding needs_extensible_format is_pcm
stereo_24_needs = refl

from_fmt_chunk_unchecked-into_wav_chunk_example :
    from_fmt_chunk_unchecked (into_wav_chunk stereo_24 []) ≡ ok stereo_24
from_fmt_chunk_unchecked-into_wav_chunk_example =
    from_fmt_chunk_unchecked-into_wav_chunk stereo_24 [] stereo_24-IsHeader (omega arith)
      (λ e. refl) (λ e. unfold is_extensible in refl)

from_fmt_chunk_unchecked_short_example :
    from_fmt_chunk_unchecked (into_wav_chunk stereo_24 (0 ∷ 0 ∷ []))
    ≡ err (invalid_chunk_size fmt 18 (40, 2 ^ 32 - 1))
from_fmt_chunk_unchecked_short_example =
    from_fmt_chunk_unchecked_short stereo_24 (0 ∷ 0 ∷ []) stereo_24-IsHeader stereo_24_needs
      (λ e. cc) (omega arith)

abbrev list_chunk : WavChunk
list_chunk = record { chunk_id = b'L' ∷ b'I' ∷ b'S' ∷ b'T' ∷ []; payload = 1 ∷ 2 ∷ 3 ∷ [] }

list_chunk-IsWritable : IsWritable list_chunk
list_chunk-IsWritable = record { id_length = refl; payload_fits = omega arith }

list_chunk-IsPlain : IsPlain list_chunk
unfolding same
list_chunk-IsPlain = record { writable = list_chunk-IsWritable; not_fmt = refl; not_data = refl }

abbrev recording : Wav
recording = record {
  chunks_before_fmt = list_chunk ∷ [];
  header = stereo_24;
  fmt_extension = [];
  chunks_before_data = list_chunk ∷ list_chunk ∷ [];
  payload = 10 ∷ 11 ∷ 12 ∷ 13 ∷ 14 ∷ 15 ∷ 16 ∷ [];
  chunks_after_data = list_chunk ∷ [];
}

abbrev live : WavPreamble
live = record {
  chunks_before_fmt = [];
  header = stereo_24;
  fmt_extension = [];
  chunks_before_data = list_chunk ∷ [];
  data_size = 0;
}

sizes :
    (ltb (riff_size recording) 200 ≡ true)
    × (ltb (length (wav_bytes recording)) 200 ≡ true)
    × (ltb (length (stream_bytes live ++ (1 ∷ 2 ∷ []))) 200 ≡ true)
unfolding riff_size serialized_size serialized_sizes fmt_chunk data_chunk into_wav_chunk le16 le32
    written_extension needs_extensible needs_extensible_format is_pcm extensible_fmt_extension
    wav_bytes stream_bytes body_bytes riff_bytes preamble_bytes chunk_bytes chunks_bytes padding
sizes = (refl, refl, refl)

stereo_24-IsStored : IsStored stereo_24 []
stereo_24-IsStored = record {
  header = stereo_24-IsHeader;
  some_bits = omega arith;
  own = λ e. inl refl;
  plain = λ e. unfold is_extensible in refl;
}

recording-IsStorable : IsStorable recording
recording-IsStorable = record {
  before_fmt = (list_chunk-IsPlain, tt);
  before_data = (list_chunk-IsPlain, (list_chunk-IsPlain, tt));
  after_data = (list_chunk-IsWritable, tt);
  stored = stereo_24-IsStored;
  size_fits = ground (arith, sizes.0);
}

read_wav-write_wav_example :
    (write_wav recording vec ≡ ok (tt, record { written = wav_bytes recording; room = none }))
    × (read_wav 200 (source (wav_bytes recording) unexpected_eof)
        ≡ some (ok (reloaded recording, source [] unexpected_eof)))
read_wav-write_wav_example =
    read_wav-write_wav recording recording-IsStorable 200 (ground (arith, sizes.1))

write_wav-riff_size_example :
    (write_wav recording vec ≡ (
      if ltb (riff_size recording) (2 ^ 32)
      then ok (
        tt,
        record {
          written = riff ++ (le32 (riff_size recording) ++ (wave ++ body_bytes recording));
          room = none;
        },
      )
      else err invalid_input))
    × (length (wave ++ body_bytes recording) ≡ riff_size recording)
write_wav-riff_size_example = write_wav-riff_size recording (refl, tt) (refl, (refl, tt)) (refl, tt)

-- A stream that breaks off within a chunk.
abbrev broken : Source
broken = source (riff ++ (0 ∷ 0 ∷ 0 ∷ 0 ∷ (wave ++ (fmt ++ (16 ∷ 0 ∷ []))))) invalid_input

read_wav_ends_example :
    ((r : Wav × Source) × (read_wav 30 broken ≡ some (ok r)))
    ⊎ ((e : WavError) × (read_wav 30 broken ≡ some (err e)))
read_wav_ends_example = read_wav_ends 30 broken (omega arith)

live-IsFaithful : IsFaithful live
unfolding into_wav_chunk le16 le32 written_extension needs_extensible needs_extensible_format is_pcm
    extensible_fmt_extension
live-IsFaithful = record {
  before_fmt = tt;
  before_data = (list_chunk-IsPlain, tt);
  header_back = from_fmt_chunk_unchecked-into_wav_chunk_example;
  fmt_fits = omega arith;
  size_fits = omega arith;
}

read_preamble-write_stream_example :
    (write_stream live vec ≡ ok (tt, record { written = stream_bytes live; room = none }))
    × (read_preamble 200 (source (stream_bytes live ++ (1 ∷ 2 ∷ [])) unexpected_eof)
        ≡ some (ok (with_extension (streamed live), source (1 ∷ 2 ∷ []) unexpected_eof)))
read_preamble-write_stream_example =
    read_preamble-write_stream live (1 ∷ 2 ∷ []) unexpected_eof 200 live-IsFaithful
      (ground (arith, sizes.2))

from_wav_header-ok_example :
    (from_wav_header stereo_24 ≡ ok int_24_bit)
    ↔ ((word_size int_24_bit ≡ some 24) × (encoding_of int_24_bit ≡ some pcm))
from_wav_header-ok_example = from_wav_header-ok stereo_24 int_24_bit
