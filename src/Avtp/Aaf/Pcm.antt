-- ===== src/Avtp/Aaf/Pcm.antt =====
-- src/avtp/formats/aaf/pcm.rs: uncompressed audio.
pub mod Octets
pub mod Laws
pub mod Specific
pub mod FromWav
use rs.Prelude.{
  ℕ, ◌-◌, ◌*◌, ◌/◌, ◌%◌, ◌^◌, ◌≤◌, ◌<◌, ◌≡◌, Bool, true, false, List, length, All, Option, none,
  some, ltb, ◌==◌, if◌then◌else◌,
}
use rs.Io.{Outcome, ok, err, panic, IoError, M, ◌>>=◌, ◌>>◌, pure, bind, map_err, unwrap, IsByte}
use rs.Io.Stream.{BitReader, BitWriter}
use rs.Io.Fixed.{parse_array, fill_array}
use rs.Avtp.Aaf.Data.{AafFormat, AafSpecificData, format_u8, format_try_from}

pub data PcmFormat : Type 0 where
  user float_32_bit int_32_bit int_24_bit int_16_bit : PcmFormat

-- `format as u8`, and `PcmFormat::try_from(raw)`.
unfoldable pub pcm_format_u8 : PcmFormat → ℕ
pcm_format_u8 user = 0x00
pcm_format_u8 float_32_bit = 0x01
pcm_format_u8 int_32_bit = 0x02
pcm_format_u8 int_24_bit = 0x03
pcm_format_u8 int_16_bit = 0x04

unfoldable pub pcm_format_try_from : ℕ → Outcome ℕ PcmFormat
pcm_format_try_from raw =
    if raw == 0x00
    then ok user
    else if raw == 0x01
    then ok float_32_bit
    else if raw == 0x02
    then ok int_32_bit
    else if raw == 0x03
    then ok int_24_bit
    else if raw == 0x04
    then ok int_16_bit
    else err raw

unfoldable pub word_size : PcmFormat → Option ℕ
word_size user = none
word_size float_32_bit = some 32
word_size int_32_bit = some 32
word_size int_24_bit = some 24
word_size int_16_bit = some 16

pub data SampleRate : Type 0 where
  user_specified khz8 khz16 khz32 khz44_1 khz48 khz88_2 khz96 khz176_4 khz192 khz24 : SampleRate

unfoldable pub from_hz : ℕ → Option SampleRate
from_hz rate_hz =
    if rate_hz == 8_000
    then some khz8
    else if rate_hz == 16_000
    then some khz16
    else if rate_hz == 24_000
    then some khz24
    else if rate_hz == 32_000
    then some khz32
    else if rate_hz == 44_100
    then some khz44_1
    else if rate_hz == 48_000
    then some khz48
    else if rate_hz == 88_200
    then some khz88_2
    else if rate_hz == 96_000
    then some khz96
    else if rate_hz == 176_400
    then some khz176_4
    else if rate_hz == 192_000
    then some khz192
    else none

unfoldable pub rate : SampleRate → Option ℕ
rate user_specified = none
rate khz8 = some 8_000
rate khz16 = some 16_000
rate khz32 = some 32_000
rate khz44_1 = some 44_100
rate khz48 = some 48_000
rate khz88_2 = some 88_200
rate khz96 = some 96_000
rate khz176_4 = some 176_400
rate khz192 = some 192_000
rate khz24 = some 24_000

-- The discriminants.
unfoldable pub protocol_value : SampleRate → ℕ
protocol_value user_specified = 0x0
protocol_value khz8 = 0x1
protocol_value khz16 = 0x2
protocol_value khz32 = 0x3
protocol_value khz44_1 = 0x4
protocol_value khz48 = 0x5
protocol_value khz88_2 = 0x6
protocol_value khz96 = 0x7
protocol_value khz176_4 = 0x8
protocol_value khz192 = 0x9
protocol_value khz24 = 0xa

-- `SampleRate::try_from(raw)`; the error carries the number.
unfoldable pub rate_try_from : ℕ → Outcome ℕ SampleRate
rate_try_from raw =
    if raw == 0x0
    then ok user_specified
    else if raw == 0x1
    then ok khz8
    else if raw == 0x2
    then ok khz16
    else if raw == 0x3
    then ok khz32
    else if raw == 0x4
    then ok khz44_1
    else if raw == 0x5
    then ok khz48
    else if raw == 0x6
    then ok khz88_2
    else if raw == 0x7
    then ok khz96
    else if raw == 0x8
    then ok khz176_4
    else if raw == 0x9
    then ok khz192
    else if raw == 0xa
    then ok khz24
    else err raw

pub data InvalidPcmAaf : Type 0 where
  non_pcm_format : AafFormat → InvalidPcmAaf
  sample_rate_reserved : ℕ → InvalidPcmAaf
  bit_depth_invalid : ℕ → PcmFormat → InvalidPcmAaf
  bit_depth_zero channels_per_frame_zero : InvalidPcmAaf
  payload_size_invalid : (payload_size frame_size : ℕ) → InvalidPcmAaf
  payload_too_large : ℕ → InvalidPcmAaf

-- `payload_slice` and the getters are the fields, `set_nominal_sample_rate` a field's update.
pub record AafPcm : Type 0 where
  pub nominal_sample_rate : SampleRate
  -- u10 and NonZero<u8>
  pub channels_per_frame : ℕ
  pub format : PcmFormat
  pub bit_depth : ℕ
  pub payload : List ℕ

-- What the constructors ensure, beside the ranges of the Rust types.
pub record IsValid (p : AafPcm) : Type 0 where
  pub channels_fit : p.channels_per_frame < 2 ^ 10
  pub has_channels : 0 < p.channels_per_frame
  pub depth_fits : p.bit_depth < 2 ^ 8
  pub has_depth : 0 < p.bit_depth
  pub float_depth : p.format ≡ float_32_bit → p.bit_depth ≡ 32
  pub depth_in_word : (w : ℕ) → word_size p.format ≡ some w → p.bit_depth ≤ w
  pub payload_bytes : All IsByte p.payload
  pub payload_length : length p.payload < 2 ^ 16
  pub whole_frames :
      (w : ℕ) → word_size p.format ≡ some w → length p.payload % (w / 8 * p.channels_per_frame) ≡ 0

-- `matches!(format, PcmFormat::Float32Bit)`
abbrev pub is_float : PcmFormat → Bool
is_float float_32_bit = true
is_float _ = false

unfoldable pub validated_bit_depth : ℕ → PcmFormat → Outcome InvalidPcmAaf ℕ
validated_bit_depth bit_depth format =
    if bit_depth == 0
    then err bit_depth_zero
    else if (if is_float format then (if bit_depth == 32 then false else true) else false)
    then err (bit_depth_invalid bit_depth format)
    else elim (word_size format) [
      | none ↦ ok bit_depth
      | some word_size_bits ↦
          if ltb word_size_bits bit_depth
          then err (bit_depth_invalid bit_depth format)
          else ok bit_depth
    ]

-- The remainder by a frame size of 0 would panic.
unfoldable pub validate_payload_size : PcmFormat → ℕ → ℕ → Outcome InvalidPcmAaf (Unit {0})
validate_payload_size format payload_len channels_per_frame =
    if ltb (2 ^ 16 - 1) payload_len
    then err (payload_too_large payload_len)
    else elim (word_size format) [
      | none ↦ ok tt
      | some word_size_bits ↦
          let frame_size = word_size_bits / 8 * channels_per_frame in
          if frame_size == 0
          then panic
          else if payload_len % frame_size == 0
          then ok tt
          else err (payload_size_invalid payload_len frame_size)
    ]

-- The checks that `new` and `from_specific` both end with.
unfoldable pub new : SampleRate → ℕ → PcmFormat → ℕ → List ℕ → Outcome InvalidPcmAaf AafPcm
new nominal_sample_rate channels_per_frame format bit_depth payload =
    bind (validated_bit_depth bit_depth format) λ depth.
      if channels_per_frame == 0
      then err channels_per_frame_zero
      else bind (validate_payload_size format (length payload) channels_per_frame) λ _. ok (record {
        nominal_sample_rate = nominal_sample_rate;
        channels_per_frame = channels_per_frame;
        format = format;
        bit_depth = depth;
        payload = payload;
      })

-- The fields in the first block of format-specific data.
pub record PcmFields : Type 0 where
  pub nominal_sample_rate : ℕ
  pub channels_per_frame : ℕ
  pub bit_depth : ℕ

module _ ⦃r : BitReader⦄ where
  unfoldable pub read_fields : M r.Reader IoError PcmFields
  read_fields = do
    nominal_sample_rate ← r.read 4
    reserved ← r.read 2
    channels_per_frame ← r.read 10
    bit_depth ← r.read 8
    pure (record {
      nominal_sample_rate = nominal_sample_rate;
      channels_per_frame = channels_per_frame;
      bit_depth = bit_depth;
    })

  unfoldable pub from_specific : AafSpecificData → Outcome InvalidPcmAaf AafPcm
  from_specific data0 =
      bind
        (map_err (λ _. non_pcm_format data0.format) (pcm_format_try_from (format_u8 data0.format)))
        λ format. bind (parse_array read_fields data0.aaf_format_specific_data_1) λ fields.
          bind (map_err sample_rate_reserved (rate_try_from fields.nominal_sample_rate))
            λ nominal_sample_rate.
              new nominal_sample_rate fields.channels_per_frame format fields.bit_depth
                data0.aaf_format_specific_payload

module _ ⦃w : BitWriter⦄ where
  unfoldable pub write_fields : AafPcm → M w.Writer IoError (Unit {0})
  write_fields p = do
    w.write 4 (protocol_value p.nominal_sample_rate)
    w.write 2 0
    w.write 10 p.channels_per_frame
    w.write 8 p.bit_depth

  unfoldable pub into_specific : {E : Type 0} → AafPcm → Outcome E AafSpecificData
  into_specific p = bind (fill_array (write_fields p) 3) λ data1.
      bind (unwrap (format_try_from (pcm_format_u8 p.format))) λ format. ok (record {
        format = format;
        aaf_format_specific_data_1 = data1;
        asfd = 0;
        aaf_format_specific_data_2 = 0;
        aaf_format_specific_payload = p.payload;
      })

unfoldable pub sample_count : AafPcm → Option ℕ
sample_count p = elim (word_size p.format) [
  | none ↦ none
  | some word_size_bits ↦ some (length p.payload / (word_size_bits / 8 * p.channels_per_frame))
]
