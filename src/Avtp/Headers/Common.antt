-- ===== src/Avtp/Headers/Common.antt =====
-- src/avtp/headers/common.rs: the 12 bits that every AVTP packet begins with.
pub mod Laws
use rs.Prelude.{ℕ, ◌^◌, ◌<◌, Bool, List, [], ◌∷◌, ◌++◌}
use rs.Io.{IoError, IoWrapError, io, M, ◌>>=◌, ◌>>◌, pure, lift}
use rs.Io.Bits.{to_bits}
use rs.Io.Stream.{BitReader, BitWriter}
use rs.Avtp.Subtype
use rs.Avtp.Subtype.{Subtype, UnknownSubtype}

pub record CommonHeader : Type 0 where
  pub subtype : Subtype
  pub header_specific_bit : Bool
  -- u3
  pub version : ℕ

pub record IsValid (h : CommonHeader) : Type 0 where
  pub version_fits : h.version < 2 ^ 3

-- The bits on the wire.
unfoldable pub layout : CommonHeader → List Bool
layout h =
    to_bits 8 (Subtype.to_u8 h.subtype) ++ ((h.header_specific_bit ∷ []) ++ to_bits 3 h.version)

module _ ⦃w : BitWriter⦄ where
  unfoldable pub encode : CommonHeader → M w.Writer IoError (Unit {0})
  encode h = do Subtype.encode h.subtype; w.write_bit h.header_specific_bit; w.write 3 h.version

module _ ⦃r : BitReader⦄ where
  unfoldable pub decode : M r.Reader (IoWrapError UnknownSubtype) CommonHeader
  decode = do
    subtype ← Subtype.decode
    header_specific_bit ← lift io r.read_bit
    version ← lift io (r.read 3)
    pure
        (record { subtype = subtype; header_specific_bit = header_specific_bit; version = version })
