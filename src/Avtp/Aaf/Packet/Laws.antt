-- ===== src/Avtp/Aaf/Packet/Laws.antt =====
-- AAF packets against the stream headers that carry them (src/avtp/formats/aaf/common.rs).
use rs.Prelude.{ℕ, ◌^◌, ◌<◌, ◌≡◌, ◌≢◌, ◌↔◌, refl, ap, Bool, true, List, ◌∷◌, length, arith}
use rs.Io.{ok, panic, unwrap}
use rs.Io.Outcomes.{bind_run}
use rs.Io.Bits.{bit}
use rs.Io.Stream.{BitWriter}
use rs.Avtp.Subtype.{Subtype, to_u8}
use rs.Avtp.Headers.Stream
use rs.Avtp.Headers.Stream.{
  GenericStreamData, SpecificStreamData, StreamHeader, stream_id_valid, new_specific,
}
use rs.Avtp.Aaf.Data.{AafFormat, format_u8}
use rs.Avtp.Aaf.Packet.{Aaf, Flags, validate_stream_data, into_header}
use rs.Avtp.Aaf.Packet.Octets as FlagOctets
use rs.Avtp.Aaf.Packet.Octets.{flags_of, flags_of-octets, flags_of_octets, octets_of_flags}
use rs.Avtp.Aaf.Packet.Variant
use rs.Avtp.Aaf.Packet.Variant.{
  specific, specific-IsValidSpecific, variant_into_specific_run, variant_round_trip,
  variant-IsValid, variant_total,
}

-- What an AAF packet requires of the stream's data.
pub record IsAaf (g : GenericStreamData) : Type 0 where
  pub is_aaf : g.common.subtype ≡ Subtype.aaf
  pub has_stream_id : g.common.header_specific_bit ≡ true
  pub version_zero : g.common.version ≡ 0

pub record IsValid (a : Aaf) : Type 0 where
  pub generic : Stream.IsValidGeneric a.stream_data
  pub accepted : IsAaf a.stream_data
  pub variant : Variant.IsValid a.format_data
  pub events_fit : a.event_flags < 2 ^ 4

aaf_discriminant : (s : Subtype) → to_u8 s ≡ 2 → s ≡ Subtype.aaf
unfolding to_u8
aaf_discriminant s h = ground arith

-- The check of the stream data succeeds exactly where the subtype is AAF, the stream ID is marked
-- valid and the version is 0.
pub validate_iff : (g : GenericStreamData) → (validate_stream_data g ≡ ok tt) ↔ IsAaf g
unfolding validate_stream_data to_u8 Stream.stream_id_valid
validate_iff g = (
  λ h. record {
    is_aaf = aaf_discriminant g.common.subtype (ground arith);
    has_stream_id = ground arith;
    version_zero = ground arith;
  },
  λ v. rw (validate_stream_data, v.is_aaf, v.has_stream_id, v.version_zero) refl,
)

pub validate_total : (g : GenericStreamData) → validate_stream_data g ≢ panic
unfolding validate_stream_data to_u8 Stream.stream_id_valid
validate_total g h = ground arith

unfoldable pub flags : Aaf → Flags
flags a = record {
  asfd = (specific a.format_data).asfd;
  sparse_timestamp = a.sparse_timestamp;
  event_flags = a.event_flags;
  aaf_format_specific_data_2 = (specific a.format_data).aaf_format_specific_data_2;
}

-- The header that carries a packet.
unfoldable pub header_of : Aaf → StreamHeader
header_of a = record {
  generic = a.stream_data;
  specific = record {
    format_specific_data = 0;
    format_specific_data_1 = 0;
    format_specific_data_2 =
        format_u8 (specific a.format_data).format
        ∷ (specific a.format_data).aaf_format_specific_data_1;
    format_specific_data_3 = FlagOctets.octets (flags a);
    stream_data_payload = (specific a.format_data).aaf_format_specific_payload;
  };
}

format_u8_small : (f : AafFormat) → format_u8 f < 6
unfolding format_u8
format_u8_small f = ground arith

pub bit_below : (b : Bool) → bit b < 2
bit_below b = ground arith

pub header_of-IsValid : (a : Aaf) → IsValid a → Stream.IsValid (header_of a)
unfolding header_of flags
header_of-IsValid a v =
    let (d, len) = specific-IsValidSpecific a.format_data v.variant in
    record {
      generic = v.generic;
      specific = record {
        data_fits = omega arith;
        data_1_fits = omega arith;
        data_2_length = omega (arith, d.data_1_length);
        data_2_bytes =
            (omega (arith, format_u8_small (specific a.format_data).format), d.data_1_bytes);
        data_3_length = refl;
        data_3_bytes =
            omega (arith, d.asfd_fits, d.data_2_fits, v.events_fit, bit_below a.sparse_timestamp);
        payload_bytes = d.payload_bytes;
        payload_length = len;
      };
    }

new_specific_run :
    (a b : ℕ) (c d p : List ℕ)
    → length p < 2 ^ 16
    → new_specific a b c d p
      ≡ ok (record {
        format_specific_data = a;
        format_specific_data_1 = b;
        format_specific_data_2 = c;
        format_specific_data_3 = d;
        stream_data_payload = p;
      })
unfolding new_specific
new_specific_run a b c d p h = ground arith

module _ ⦃w : BitWriter⦄ where
  -- A well-formed packet always has a header: none of the unwraps panics.
  pub into_header_run :
      {E : Type 0} (a : Aaf) → IsValid a → into_header {E = E} a ≡ ok (header_of a)
  unfolding into_header header_of flags
  into_header_run a v =
      let (d, len) = specific-IsValidSpecific a.format_data v.variant in
      bind_run _ (variant_into_specific_run a.format_data v.variant) (
        bind_run _ (octets_of_flags (flags a) d.asfd_fits v.events_fit d.data_2_fits)
          (bind_run _ (ap unwrap (new_specific_run 0 0 _ _ _ len)) refl))
