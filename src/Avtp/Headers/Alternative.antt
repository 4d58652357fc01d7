-- ===== src/Avtp/Headers/Alternative.antt =====
-- src/avtp/headers/alternative.rs: packets with neither the stream nor the control header. Decoding
-- them is `todo!` in the source.
pub mod Laws
use rs.Prelude.{
  ℕ, ◌+◌, ◌/◌, ◌%◌, ◌≡◌, Bool, false, List, [], ◌∷◌, ◌++◌, length, All, Option, none, some,
  replicate,
}
use rs.Io.{IoError, IoWrapError, io, panic, M, ◌>>=◌, ◌>>◌, lift, IsByte}
use rs.Io.Bits.{to_bits, bytes_bits}
use rs.Io.Stream.{BitReader, BitWriter}
use rs.Avtp.Subtype.{UnknownSubtype}
use rs.Avtp.Headers.Common
use rs.Avtp.Headers.Common.{CommonHeader}

pub record AlternativeHeader : Type 0 where
  pub common : CommonHeader
  pub alternative_data_payload : List ℕ

-- `slice::split_last`
unfoldable pub split_last : List ℕ → Option (ℕ × List ℕ)
split_last [] = none
split_last (x ∷ []) = some (x, [])
split_last (x ∷ y ∷ ys) = elim (split_last (y ∷ ys)) [
  | none ↦ none
  | some (z, zs) ↦ some (z, x ∷ zs)
]

-- The low nibble of the last payload byte is padding.
unfoldable pub payload_layout : List ℕ → List Bool
payload_layout payload = elim (split_last payload) [
  | none ↦ replicate 4 false
  | some (last, rest) ↦ bytes_bits rest ++ to_bits 4 (last / 16)
]

unfoldable pub layout : AlternativeHeader → List Bool
layout h = Common.layout h.common ++ payload_layout h.alternative_data_payload

pub record IsValid (h : AlternativeHeader) : Type 0 where
  pub common : Common.IsValid h.common
  pub payload_bytes : All IsByte h.alternative_data_payload

module _ ⦃w : BitWriter⦄ where
  unfoldable pub encode_payload : List ℕ → M w.Writer IoError (Unit {0})
  encode_payload payload = elim (split_last payload) [
    | none ↦ w.byte_align
    | some (last, rest) ↦ do w.write_bytes rest; w.write 4 (last / 16)
  ]

  unfoldable pub encode : AlternativeHeader → M w.Writer IoError (Unit {0})
  encode h = do Common.encode h.common; encode_payload h.alternative_data_payload

module _ ⦃r : BitReader⦄ where
  -- Each arm of the `match` on the subtype is `unreachable!` or `todo!`.
  unfoldable pub decode_after_common : CommonHeader → M r.Reader IoError AlternativeHeader
  decode_after_common common reader = panic

  unfoldable pub decode : M r.Reader (IoWrapError UnknownSubtype) AlternativeHeader
  decode = do common ← Common.decode; lift io (decode_after_common common)
