-- ===== src/Audio/Wav.antt =====
-- src/audio/wav.rs: the values of WAV files, and the errors of reading and writing them.
-- A chunk's payload is the field `data` of the source.
pub mod Header
pub mod Chunk
pub mod Preamble
pub mod File
use rs.Prelude.{
  ℕ, ◌+◌, ◌-◌, ◌%◌, ◌^◌, Bool, true, false, ◌&&◌, List, [], ◌∷◌, length, ◌==◌, if◌then◌else◌,
}
use rs.Io.{IoError}

abbrev pub riff : List ℕ
riff = b'R' ∷ b'I' ∷ b'F' ∷ b'F' ∷ []

abbrev pub wave : List ℕ
wave = b'W' ∷ b'A' ∷ b'V' ∷ b'E' ∷ []

abbrev pub fmt : List ℕ
fmt = b'f' ∷ b'm' ∷ b't' ∷ b' ' ∷ []

abbrev pub data_tag : List ℕ
data_tag = b'd' ∷ b'a' ∷ b't' ∷ b'a' ∷ []

abbrev pub wave_format_extensible : ℕ
wave_format_extensible = 0xFFFE

abbrev pub ks_subformat_guid_suffix : List ℕ
ks_subformat_guid_suffix =
    0x00 ∷ 0x00 ∷ 0x00 ∷ 0x00 ∷ 0x10 ∷ 0x00 ∷ 0x80 ∷ 0x00 ∷ 0x00 ∷ 0xAA ∷ 0x00 ∷ 0x38 ∷ 0x9B ∷ 0x71
    ∷ []

-- An inclusive range of sizes is its two ends.
pub data WavError : Type 0 where
  invalid_magic : List ℕ → List ℕ → WavError
  invalid_chunk_size : List ℕ → ℕ → ℕ × ℕ → WavError
  data_before_fmt missing_fmt_chunk missing_data_chunk : WavError
  io : IoError → WavError

pub record WavChunk : Type 0 where
  pub chunk_id : List ℕ
  pub payload : List ℕ

pub record ChunkHeader : Type 0 where
  pub chunk_id : List ℕ
  pub chunk_size : ℕ

pub data WavAudioFormat : Type 0 where
  pcm ieee_float : WavAudioFormat
  other : ℕ → WavAudioFormat

-- `WavAudioFormat::from(raw)` and `u16::from(format)`.
unfoldable pub audio_format_from : ℕ → WavAudioFormat
audio_format_from raw = if raw == 1 then pcm else if raw == 3 then ieee_float else other raw

unfoldable pub audio_format_u16 : WavAudioFormat → ℕ
audio_format_u16 pcm = 1
audio_format_u16 ieee_float = 3
audio_format_u16 (other raw) = raw

pub record WavHeader : Type 0 where
  pub channels : ℕ
  pub sample_rate : ℕ
  pub bits_per_sample : ℕ
  pub valid_bits_per_sample : ℕ
  pub audio_format : WavAudioFormat

pub record WavPreamble : Type 0 where
  pub chunks_before_fmt : List WavChunk
  pub header : WavHeader
  pub fmt_extension : List ℕ
  pub chunks_before_data : List WavChunk
  pub data_size : ℕ

pub record Wav : Type 0 where
  pub chunks_before_fmt : List WavChunk
  pub header : WavHeader
  pub fmt_extension : List ℕ
  pub chunks_before_data : List WavChunk
  pub payload : List ℕ
  pub chunks_after_data : List WavChunk

unfoldable pub from_header_and_data : WavHeader → List ℕ → Wav
from_header_and_data header payload = record {
  chunks_before_fmt = [];
  header = header;
  fmt_extension = [];
  chunks_before_data = [];
  payload = payload;
  chunks_after_data = [];
}
