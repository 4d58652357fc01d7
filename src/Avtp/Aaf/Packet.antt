-- ===== src/Avtp/Aaf/Packet.antt =====
-- src/avtp/formats/aaf/common.rs: an AAF packet against the stream header that carries it.
pub mod Octets
pub mod Laws
pub mod Parse
pub mod Variant
use rs.Prelude.{ℕ, Bool, List, [], ◌∷◌, ◌==◌, if◌then◌else◌}
use rs.Io.{Outcome, ok, err, panic, IoError, M, ◌>>=◌, ◌>>◌, pure, bind, map_err, unwrap}
use rs.Io.Stream.{BitReader, BitWriter}
use rs.Io.Fixed.{parse_array, fill_array}
use rs.Avtp.Subtype.{Subtype, to_u8}
use rs.Avtp.Headers.Stream.{GenericStreamData, StreamHeader, stream_id_valid, new_specific}
use rs.Avtp.Headers.Stream as Stream
use rs.Avtp.Aaf.Data.{
  AafFormat, AafSpecificData, AafAes3, InvalidAes3Aaf, format_u8, format_try_from,
  aes3_from_specific, aes3_into_specific,
}
use rs.Avtp.Aaf.Pcm
use rs.Avtp.Aaf.Pcm.{AafPcm, InvalidPcmAaf}

pub data AafFormatSpecificError : Type 0 where
  pcm_error : InvalidPcmAaf → AafFormatSpecificError
  aes3_error : InvalidAes3Aaf → AafFormatSpecificError

pub data InvalidAaf : Type 0 where
  invalid_subtype : Subtype → InvalidAaf
  stream_id_invalid : InvalidAaf
  unsupported_version : ℕ → InvalidAaf
  format_reserved : ℕ → InvalidAaf
  format_specific_error : AafFormatSpecificError → InvalidAaf

pub data AafVariant : Type 0 where
  pcm : AafPcm → AafVariant
  aes3 : AafAes3 → AafVariant

pub record Aaf : Type 0 where
  pub stream_data : GenericStreamData
  pub format_data : AafVariant
  pub sparse_timestamp : Bool
  -- u4
  pub event_flags : ℕ

-- The subtypes are compared by their discriminants.
unfoldable pub validate_stream_data : GenericStreamData → Outcome InvalidAaf (Unit {0})
validate_stream_data g =
    if to_u8 g.common.subtype == to_u8 Subtype.aaf
    then (if stream_id_valid g
        then (if g.common.version == 0 then ok tt else err (unsupported_version g.common.version))
        else err stream_id_invalid)
    else err (invalid_subtype g.common.subtype)

unfoldable pub new : GenericStreamData → AafVariant → Bool → ℕ → Outcome InvalidAaf Aaf
new stream_data format_data sparse_timestamp event_flags =
    bind (validate_stream_data stream_data) λ _. ok (record {
      stream_data = stream_data;
      format_data = format_data;
      sparse_timestamp = sparse_timestamp;
      event_flags = event_flags;
    })

-- The new value, or the error and the value as it was.
unfoldable pub set_stream_data : Aaf → GenericStreamData → Aaf × Outcome InvalidAaf (Unit {0})
set_stream_data a stream_data = elim (validate_stream_data stream_data) [
  | ok _ ↦ (record a { stream_data = stream_data }, ok tt)
  | err e ↦ (a, err e)
  | panic ↦ (a, panic)
]

-- The third block of format-specific data.
pub record Flags : Type 0 where
  pub asfd : ℕ
  pub sparse_timestamp : Bool
  pub event_flags : ℕ
  pub aaf_format_specific_data_2 : ℕ

-- The first octet of a [u8; 4], and the others.
abbrev pub first_octet : List ℕ → ℕ
first_octet [] = 0
first_octet (x ∷ xs) = x

abbrev pub other_octets : List ℕ → List ℕ
other_octets [] = []
other_octets (x ∷ xs) = xs

module _ ⦃r : BitReader⦄ where
  unfoldable pub read_flags : M r.Reader IoError Flags
  read_flags = do
    asfd ← r.read 3
    sparse_timestamp ← r.read_bit
    event_flags ← r.read 4
    aaf_format_specific_data_2 ← r.read 8
    pure (record {
      asfd = asfd;
      sparse_timestamp = sparse_timestamp;
      event_flags = event_flags;
      aaf_format_specific_data_2 = aaf_format_specific_data_2;
    })

  -- `AafVariant::try_from`
  unfoldable pub variant_from_specific : AafSpecificData → Outcome AafFormatSpecificError AafVariant
  variant_from_specific value = elim value.format [
    | AafFormat.aes3_32_bit ↦ bind (map_err aes3_error (aes3_from_specific value)) λ a. ok (aes3 a)
    | _ ↦ bind (map_err pcm_error (Pcm.from_specific value)) λ p. ok (pcm p)
  ]

  -- `Aaf::try_from`, of a stream header.
  unfoldable pub from_header : StreamHeader → Outcome InvalidAaf Aaf
  from_header h = bind (validate_stream_data h.generic) λ _.
      bind (parse_array read_flags h.specific.format_specific_data_3) λ flags.
        bind
          (map_err format_reserved
            (format_try_from (first_octet h.specific.format_specific_data_2)))
          λ format.
            bind
              (map_err format_specific_error (
                variant_from_specific (record {
                  format = format;
                  aaf_format_specific_data_1 = other_octets h.specific.format_specific_data_2;
                  asfd = flags.asfd;
                  aaf_format_specific_data_2 = flags.aaf_format_specific_data_2;
                  aaf_format_specific_payload = h.specific.stream_data_payload;
                })))
              λ format_data. ok (record {
                stream_data = h.generic;
                format_data = format_data;
                sparse_timestamp = flags.sparse_timestamp;
                event_flags = flags.event_flags;
              })

module _ ⦃w : BitWriter⦄ where
  unfoldable pub write_flags : Flags → M w.Writer IoError (Unit {0})
  write_flags f = do
    w.write 3 f.asfd
    w.write_bit f.sparse_timestamp
    w.write 4 f.event_flags
    w.write 8 f.aaf_format_specific_data_2

  -- `AafSpecificData::from`, of a variant.
  unfoldable pub variant_into_specific : {E : Type 0} → AafVariant → Outcome E AafSpecificData
  variant_into_specific (pcm p) = Pcm.into_specific p
  variant_into_specific (aes3 a) = ok (aes3_into_specific a)

  -- `StreamHeader::from`, of an AAF packet.
  unfoldable pub into_header : {E : Type 0} → Aaf → Outcome E StreamHeader
  into_header val = bind (variant_into_specific val.format_data) λ d.
      bind
        (fill_array
          (write_flags (record {
            asfd = d.asfd;
            sparse_timestamp = val.sparse_timestamp;
            event_flags = val.event_flags;
            aaf_format_specific_data_2 = d.aaf_format_specific_data_2;
          }))
          2)
        λ buffer.
          bind
            (unwrap (
              new_specific 0 0 (format_u8 d.format ∷ d.aaf_format_specific_data_1) buffer
                d.aaf_format_specific_payload))
            λ specific. ok (record { generic = val.stream_data; specific = specific })
