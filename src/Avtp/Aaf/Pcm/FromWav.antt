-- ===== src/Avtp/Aaf/Pcm/FromWav.antt =====
-- src/avtp/formats/aaf/pcm.rs: the AAF format of the samples in a WAV file.
use rs.Prelude.{ℕ, ◌≡◌, ◌↔◌, arith, Option, some, none, ◌==◌, if◌then◌else◌}
use rs.Io.{Outcome, ok, err}
use rs.Audio.Wav.{WavHeader, WavAudioFormat, pcm, ieee_float, other}
use rs.Avtp.Aaf.Pcm.{PcmFormat, user, float_32_bit, int_32_bit, int_24_bit, int_16_bit, word_size}

pub data UnsupportedWavEncoding : Type 0 where
  unsupported_bit_depth invalid_float_bit_depth : ℕ → UnsupportedWavEncoding
  unsupported_audio_format : WavAudioFormat → UnsupportedWavEncoding

unfoldable pub from_encoding : WavAudioFormat → ℕ → Outcome UnsupportedWavEncoding PcmFormat
from_encoding pcm bits =
    if bits == 16
    then ok int_16_bit
    else if bits == 24
    then ok int_24_bit
    else if bits == 32
    then ok int_32_bit
    else err (unsupported_bit_depth bits)
from_encoding ieee_float bits =
    if bits == 32 then ok float_32_bit else err (invalid_float_bit_depth bits)
from_encoding (other raw) bits = err (unsupported_audio_format (other raw))

unfoldable pub from_wav_header : WavHeader → Outcome UnsupportedWavEncoding PcmFormat
from_wav_header header = from_encoding header.audio_format header.bits_per_sample

-- Whether the samples of an AAF format are integers.
abbrev pub encoding_of : PcmFormat → Option WavAudioFormat
encoding_of user = none
encoding_of float_32_bit = some ieee_float
encoding_of int_32_bit = some pcm
encoding_of int_24_bit = some pcm
encoding_of int_16_bit = some pcm

from_encoding-ok :
    (e : WavAudioFormat) (bits : ℕ) (f : PcmFormat)
    → from_encoding e bits ≡ ok f
    → (word_size f ≡ some bits) × (encoding_of f ≡ some e)
unfolding from_encoding word_size
from_encoding-ok pcm bits f h = ground arith
from_encoding-ok ieee_float bits f h = ground arith
from_encoding-ok (other raw) bits f h = absurd (cc)

from_encoding-word_size :
    (e : WavAudioFormat) (bits : ℕ) (f : PcmFormat)
    → word_size f ≡ some bits
    → encoding_of f ≡ some e
    → from_encoding e bits ≡ ok f
unfolding from_encoding word_size
from_encoding-word_size pcm bits f h k = ground arith
from_encoding-word_size ieee_float bits f h k = ground arith
from_encoding-word_size (other raw) bits f h k = ground arith

-- A WAV header maps to an AAF format exactly if the format's sample word has as many bits as a WAV
-- sample, and the format holds integers for PCM and floats for IEEE float.
pub from_wav_header-ok :
    (h : WavHeader) (f : PcmFormat)
    → (from_wav_header h ≡ ok f)
      ↔ ((word_size f ≡ some h.bits_per_sample) × (encoding_of f ≡ some h.audio_format))
unfolding from_wav_header
from_wav_header-ok h f = (
  from_encoding-ok h.audio_format h.bits_per_sample f,
  λ e. from_encoding-word_size h.audio_format h.bits_per_sample f e.0 e.1,
)
