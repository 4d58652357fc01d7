-- ===== src/Audio/Wav/Header.antt =====
-- src/audio/wav.rs: the header of a WAV file as its `fmt ` chunk.
-- The products of `into_wav_chunk` wrap around, as they do in a release build.
pub mod Laws
pub mod Stored
use rs.Prelude.Text.{same}
use rs.Prelude.{
  ℕ, zero, suc, ◌+◌, ◌-◌, ◌*◌, ◌/◌, ◌%◌, ◌^◌, Bool, true, false, not, ◌&&◌, ◌||◌, List, [], ◌∷◌,
  ◌++◌, length, drop, ltb, leb, ◌==◌, if◌then◌else◌,
}
use rs.Io.{Outcome, ok, err, panic, bind}
use rs.Io.Octets.{le16, le32, from_le16, from_le32}
use rs.Audio.Wav.{
  fmt, wave_format_extensible, ks_subformat_guid_suffix, WavError, invalid_chunk_size, WavChunk,
  WavAudioFormat, pcm, ieee_float, other, audio_format_from, audio_format_u16, WavHeader,
}

-- `u16::from_le_bytes([data[i], data[i + 1]])`, at the slice that starts there: an index out of
-- range panics. Likewise for a u32.
unfoldable pub u16_at : {E : Type 0} → List ℕ → Outcome E ℕ
u16_at [] = panic
u16_at (a ∷ []) = panic
u16_at (a ∷ b ∷ rest) = ok (from_le16 a b)

unfoldable pub u32_at : {E : Type 0} → List ℕ → Outcome E ℕ
u32_at [] = panic
u32_at (a ∷ []) = panic
u32_at (a ∷ b ∷ []) = panic
u32_at (a ∷ b ∷ c ∷ []) = panic
u32_at (a ∷ b ∷ c ∷ d ∷ rest) = ok (from_le32 a b c d)

-- `xs[..n]`, for a range that is known to be there.
unfoldable pub front : ℕ → List ℕ → List ℕ
front zero xs = []
front (suc n) [] = []
front (suc n) (x ∷ xs) = x ∷ front n xs

-- `u32::try_from(len).unwrap_or(u32::MAX)`
unfoldable pub found_size : ℕ → ℕ
found_size n = if ltb n (2 ^ 32) then n else 2 ^ 32 - 1

unfoldable pub is_extensible : WavAudioFormat → Bool
is_extensible pcm = false
is_extensible ieee_float = false
is_extensible (other raw) = raw == wave_format_extensible

unfoldable pub is_pcm : WavAudioFormat → Bool
is_pcm pcm = true
is_pcm ieee_float = false
is_pcm (other raw) = false

-- The format and the valid bits of an extensible header, from the 16 bytes of its subformat.
unfoldable pub subformat_audio_format : List ℕ → ℕ → WavAudioFormat
subformat_audio_format suffix raw =
    if same suffix ks_subformat_guid_suffix then audio_format_from raw else other raw

unfoldable pub extensible_fields : List ℕ → List ℕ → ℕ → Outcome WavError (WavAudioFormat × ℕ)
extensible_fields chunk_id bs bits_per_sample =
    if ltb (length bs) 40
    then err (invalid_chunk_size chunk_id (found_size (length bs)) (40, 2 ^ 32 - 1))
    else bind (u16_at (drop 18 bs)) λ raw_valid_bits. bind (u16_at (drop 24 bs)) λ raw. ok (
      subformat_audio_format (front 14 (drop 26 bs)) raw,
      if raw_valid_bits == 0 then bits_per_sample else raw_valid_bits,
    )

unfoldable pub format_fields :
    List ℕ → List ℕ → WavAudioFormat → ℕ → Outcome WavError (WavAudioFormat × ℕ)
format_fields chunk_id bs raw_audio_format bits_per_sample =
    if is_extensible raw_audio_format
    then extensible_fields chunk_id bs bits_per_sample
    else ok (raw_audio_format, bits_per_sample)

unfoldable pub from_fmt_chunk_unchecked : WavChunk → Outcome WavError WavHeader
from_fmt_chunk_unchecked chunk =
    let bs = chunk.payload in
    if ltb (length bs) 16
    then err (invalid_chunk_size chunk.chunk_id (found_size (length bs)) (16, 2 ^ 32 - 1))
    else bind (u16_at bs) λ tag. bind (u16_at (drop 14 bs)) λ bits_per_sample.
      bind (format_fields chunk.chunk_id bs (audio_format_from tag) bits_per_sample)
        λ (audio_format, valid_bits_per_sample). bind (u16_at (drop 2 bs)) λ channels.
          bind (u32_at (drop 4 bs)) λ sample_rate. ok (record {
            channels = channels;
            sample_rate = sample_rate;
            bits_per_sample = bits_per_sample;
            valid_bits_per_sample = valid_bits_per_sample;
            audio_format = audio_format;
          })

unfoldable pub needs_extensible_format : WavHeader → Bool
needs_extensible_format h =
    not (h.valid_bits_per_sample == h.bits_per_sample)
    || ltb 2 h.channels
    || is_pcm h.audio_format && ltb 16 h.bits_per_sample

unfoldable pub extensible_fmt_extension : WavHeader → List ℕ
extensible_fmt_extension h =
    le16 22
    ++ (le16 h.valid_bits_per_sample
        ++ (le32 0 ++ (le16 (audio_format_u16 h.audio_format) ++ ks_subformat_guid_suffix)))

-- The local values of `into_wav_chunk`.
unfoldable pub needs_extensible : WavHeader → List ℕ → Bool
needs_extensible h fmt_extension = leb 24 (length fmt_extension) || needs_extensible_format h

unfoldable pub written_extension : WavHeader → List ℕ → List ℕ
written_extension h [] = if needs_extensible h [] then extensible_fmt_extension h else []
written_extension h (x ∷ xs) = x ∷ xs

unfoldable pub format_tag : WavHeader → List ℕ → ℕ
format_tag h fmt_extension =
    if needs_extensible h fmt_extension
    then wave_format_extensible
    else audio_format_u16 h.audio_format

unfoldable pub byte_rate : WavHeader → ℕ
byte_rate h = h.sample_rate * h.channels % 2 ^ 32 * (h.bits_per_sample / 8) % 2 ^ 32

unfoldable pub block_align : WavHeader → ℕ
block_align h = h.channels * (h.bits_per_sample / 8) % 2 ^ 16

unfoldable pub into_wav_chunk : WavHeader → List ℕ → WavChunk
into_wav_chunk h fmt_extension = record {
  chunk_id = fmt;
  payload =
      le16 (format_tag h fmt_extension)
      ++ (le16 h.channels
          ++ (le32 h.sample_rate
              ++ (le32 (byte_rate h)
                  ++ (le16 (block_align h)
                      ++ (le16 h.bits_per_sample ++ written_extension h fmt_extension)))));
}
