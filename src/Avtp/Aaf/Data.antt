-- ===== src/Avtp/Aaf/Data.antt =====
-- The format-specific fields of an AAF packet (src/avtp/formats/aaf/common.rs), and the AES3 variant
-- (src/avtp/formats/aaf/aes3.rs), which is a container around them.
use rs.Prelude.{ℕ, ◌^◌, ◌<◌, ◌≡◌, refl, List, length, All, ◌==◌, if◌then◌else◌}
use rs.Io.{Outcome, ok, err, IsByte}

pub data AafFormat : Type 0 where
  user float_32_bit int_32_bit int_24_bit int_16_bit aes3_32_bit : AafFormat

-- `format as u8`: the discriminants.
unfoldable pub format_u8 : AafFormat → ℕ
format_u8 user = 0x00
format_u8 float_32_bit = 0x01
format_u8 int_32_bit = 0x02
format_u8 int_24_bit = 0x03
format_u8 int_16_bit = 0x04
format_u8 aes3_32_bit = 0x05

-- `AafFormat::try_from(raw)`; the error carries the number.
unfoldable pub format_try_from : ℕ → Outcome ℕ AafFormat
format_try_from raw =
    if raw == 0x00
    then ok user
    else if raw == 0x01
    then ok float_32_bit
    else if raw == 0x02
    then ok int_32_bit
    else if raw == 0x03
    then ok int_24_bit
    else if raw == 0x04
    then ok int_16_bit
    else if raw == 0x05
    then ok aes3_32_bit
    else err raw

pub format_try_from-format_u8 : (f : AafFormat) → format_try_from (format_u8 f) ≡ ok f
unfolding format_try_from format_u8
format_try_from-format_u8 user = refl
format_try_from-format_u8 float_32_bit = refl
format_try_from-format_u8 int_32_bit = refl
format_try_from-format_u8 int_24_bit = refl
format_try_from-format_u8 int_16_bit = refl
format_try_from-format_u8 aes3_32_bit = refl

pub record AafSpecificData : Type 0 where
  pub format : AafFormat
  -- [u8; 3], u3 and u8
  pub aaf_format_specific_data_1 : List ℕ
  pub asfd : ℕ
  pub aaf_format_specific_data_2 : ℕ
  pub aaf_format_specific_payload : List ℕ

pub record IsValidSpecific (d : AafSpecificData) : Type 0 where
  pub data_1_length : length d.aaf_format_specific_data_1 ≡ 3
  pub data_1_bytes : All IsByte d.aaf_format_specific_data_1
  pub asfd_fits : d.asfd < 2 ^ 3
  pub data_2_fits : d.aaf_format_specific_data_2 < 2 ^ 8
  pub payload_bytes : All IsByte d.aaf_format_specific_payload

pub data InvalidAes3Aaf : Type 0 where
  non_aes3_format : AafFormat → InvalidAes3Aaf

pub record AafAes3 : Type 0 where
  pub specific : AafSpecificData

-- `AafAes3::from_specific`
unfoldable pub aes3_from_specific : AafSpecificData → Outcome InvalidAes3Aaf AafAes3
aes3_from_specific d = elim d.format [
  | user ↦ err (non_aes3_format d.format)
  | float_32_bit ↦ err (non_aes3_format d.format)
  | int_32_bit ↦ err (non_aes3_format d.format)
  | int_24_bit ↦ err (non_aes3_format d.format)
  | int_16_bit ↦ err (non_aes3_format d.format)
  | aes3_32_bit ↦ ok (record { specific = d })
]

-- `AafAes3::into_specific`
unfoldable pub aes3_into_specific : AafAes3 → AafSpecificData
aes3_into_specific a = a.specific
