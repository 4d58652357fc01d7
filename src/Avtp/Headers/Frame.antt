-- ===== src/Avtp/Headers/Frame.antt =====
-- The octets of stream and control packets, field by field as IEEE 1722 draws them: a description of
-- the wire format that does not go through the codecs.
use rs.Prelude.{
  ℕ, ◌+◌, ◌*◌, ◌/◌, ◌%◌, ◌<◌, ◌≡◌, refl, ap, ◌∙◌, Bool, List, [], ◌∷◌, ◌++◌, length, All, arith,
  append_assoc,
}
use mathlib.Core.Path.{ap₂}
use rs.Io.{IsByte}
use rs.Io.Bits.{bit, to_bits, bytes_bits}
use rs.Io.Bytes.{
  be16, be32, to_bits-pack, to_bits-bit, bytes_bits-append, bytes_bits-cons, bytes_bits-be16,
  bytes_bits-be32, bytes-be16, bytes-be32, All-append,
}
use rs.Avtp.Subtype
use rs.Avtp.Subtype.Laws as SubtypeLaws
use rs.Avtp.StreamId
use rs.Avtp.StreamId.{StreamId}
use rs.Avtp.Headers.Common
use rs.Avtp.Headers.Stream
use rs.Avtp.Headers.Stream.{StreamHeader}
use rs.Avtp.Headers.Control
use rs.Avtp.Headers.Control.{ControlHeader}

-- The second octet: `sv`, the version and four bits of the header family.
abbrev flags : Common.CommonHeader → ℕ → ℕ
flags c low = bit c.header_specific_bit * 128 + c.version * 16 + low

unfoldable pub stream_frame : StreamHeader → List ℕ
stream_frame h =
    Subtype.to_u8 g.common.subtype
    ∷ flags g.common
        (bit g.media_clock_restart * 8 + s.format_specific_data * 2 + bit g.avtp_timestamp_valid)
    ∷ g.sequence_num
    ∷ (s.format_specific_data_1 * 2 + bit g.timestamp_uncertain)
    ∷ (g.stream_id.mac_address
        ++ (be16 g.stream_id.unique_id
            ++ (be32 g.avtp_timestamp
                ++ (s.format_specific_data_2
                    ++ (be16 (length s.stream_data_payload)
                        ++ (s.format_specific_data_3 ++ s.stream_data_payload))))))
  where
    open h use {generic as g, specific as s}

unfoldable pub control_frame : ControlHeader → List ℕ
control_frame h =
    Subtype.to_u8 h.common.subtype
    ∷ flags h.common (h.format_specific_data / 32)
    ∷ (h.format_specific_data % 32 * 8 + h.control_data_length / 256)
    ∷ h.control_data_length % 256
    ∷ (h.stream_id.mac_address ++ (be16 h.stream_id.unique_id ++ h.control_data_payload))

flags_bits :
    (c : Common.CommonHeader) (low : ℕ)
    → Common.IsValid c
    → low < 16
    → to_bits 8 (flags c low)
      ≡ (c.header_specific_bit ∷ []) ++ (to_bits 3 c.version ++ to_bits 4 low)
flags_bits c low v h =
    ap (to_bits 8) regroup
    ∙ to_bits-pack 4 4 8 (bit c.header_specific_bit * 8 + c.version) low refl
        (top c.header_specific_bit) h
    ∙ ap (λ l. l ++ to_bits 4 low)
        (to_bits-pack 1 3 4 (bit c.header_specific_bit) c.version refl (one c.header_specific_bit)
          v.version_fits)
    ∙ ap (λ l. (l ++ to_bits 3 c.version) ++ to_bits 4 low) (to_bits-bit c.header_specific_bit)
  where
    one : (x : Bool) → bit x < 2
    one x = ground arith

    top : (x : Bool) → bit x * 8 + c.version < 16
    top x = omega (arith, one x, v.version_fits)

    regroup : flags c low ≡ (bit c.header_specific_bit * 8 + c.version) * 16 + low
    regroup = omega arith

media_bits :
    (mr tv : Bool) (fsd : ℕ)
    → fsd < 4
    → to_bits 4 (bit mr * 8 + fsd * 2 + bit tv) ≡ (mr ∷ []) ++ (to_bits 2 fsd ++ (tv ∷ []))
media_bits mr tv fsd h =
    ap (to_bits 4) regroup
    ∙ to_bits-pack 1 3 4 (bit mr) (fsd * 2 + bit tv) refl (one mr) (omega (arith, one tv))
    ∙ ap₂ (λ l k. l ++ k) (to_bits-bit mr)
        (to_bits-pack 2 1 3 fsd (bit tv) refl h (one tv)
          ∙ ap (λ l. to_bits 2 fsd ++ l) (to_bits-bit tv))
  where
    one : (x : Bool) → bit x < 2
    one x = ground arith

    regroup : bit mr * 8 + fsd * 2 + bit tv ≡ bit mr * 8 + (fsd * 2 + bit tv)
    regroup = omega arith

ruleset octets = (bytes_bits-cons, bytes_bits-append, append_assoc)

-- The octets are the bits of the layout.
pub stream_frame-layout :
    (h : StreamHeader) → Stream.IsValid h → bytes_bits (stream_frame h) ≡ Stream.layout h
unfolding stream_frame Stream.layout Stream.layout_after_common Common.layout StreamId.layout
stream_frame-layout h v = simp (
  octets,
  flags_bits g.common _ vg.common
      (media_fits g.media_clock_restart g.avtp_timestamp_valid s.format_specific_data vs.data_fits),
  media_bits g.media_clock_restart g.avtp_timestamp_valid s.format_specific_data vs.data_fits,
  to_bits-pack 7 1 8 s.format_specific_data_1 (bit g.timestamp_uncertain) refl vs.data_1_fits
      (one g.timestamp_uncertain),
  to_bits-bit g.timestamp_uncertain,
  bytes_bits-be16 g.stream_id.unique_id vg.stream_id.uid,
  bytes_bits-be32 g.avtp_timestamp vg.timestamp_fits,
  bytes_bits-be16 (length s.stream_data_payload) vs.payload_length,
)
  where
    open h use {generic as g, specific as s}
    open v use {generic as vg, specific as vs}

    one : (x : Bool) → bit x < 2
    one x = ground arith

    media_fits : (mr tv : Bool) (fsd : ℕ) → fsd < 4 → bit mr * 8 + fsd * 2 + bit tv < 16
    media_fits mr tv fsd h = omega (arith, one mr, one tv)

pub control_frame-layout :
    (h : ControlHeader) → Control.IsValid h → bytes_bits (control_frame h) ≡ Control.layout h
unfolding control_frame Control.layout Control.layout_after_common Common.layout StreamId.layout
control_frame-layout h v = simp (
  octets,
  flags_bits h.common (h.format_specific_data / 32) v.common (let f = v.data_fits in omega arith),
  to_bits-pack 5 3 8 (h.format_specific_data % 32) (h.control_data_length / 256) refl (omega arith)
      (let f = v.length_fits in omega arith),
  nine,
  eleven,
  bytes_bits-be16 h.stream_id.unique_id v.stream_id.uid,
)
  where
    nine :
        to_bits 9 h.format_specific_data
        ≡ to_bits 4 (h.format_specific_data / 32) ++ to_bits 5 (h.format_specific_data % 32)
    nine =
        ap (to_bits 9) (omega arith)
        ∙ to_bits-pack 4 5 9 (h.format_specific_data / 32) (h.format_specific_data % 32) refl
            (let f = v.data_fits in omega arith) (omega arith)

    eleven :
        to_bits 11 h.control_data_length
        ≡ to_bits 3 (h.control_data_length / 256) ++ to_bits 8 (h.control_data_length % 256)
    eleven =
        ap (to_bits 11) (omega arith)
        ∙ to_bits-pack 3 8 11 (h.control_data_length / 256) (h.control_data_length % 256) refl
            (let f = v.length_fits in omega arith) (omega arith)

bit_fits : (x : Bool) → bit x < 2
bit_fits x = ground arith

append_bytes : (xs ys : List ℕ) → All IsByte xs → All IsByte ys → All IsByte (xs ++ ys)
append_bytes xs ys p q = All-append IsByte xs ys p q

pub stream_frame-bytes : (h : StreamHeader) → Stream.IsValid h → All IsByte (stream_frame h)
unfolding stream_frame
stream_frame-bytes h v = (
  SubtypeLaws.to_u8-IsByte g.common.subtype,
  (
    omega (
      arith,
      bit_fits g.common.header_specific_bit,
      bit_fits g.media_clock_restart,
      bit_fits g.avtp_timestamp_valid,
      vg.common.version_fits,
      vs.data_fits,
    ),
    (
      vg.sequence_fits,
      (
        omega (arith, bit_fits g.timestamp_uncertain, vs.data_1_fits),
        append_bytes _ _ vg.stream_id.bytes (
            append_bytes _ _ (bytes-be16 _ vg.stream_id.uid) (
              append_bytes _ _ (bytes-be32 _ vg.timestamp_fits) (
                append_bytes _ _ vs.data_2_bytes (
                  append_bytes _ _ (bytes-be16 _ vs.payload_length)
                    (append_bytes _ _ vs.data_3_bytes vs.payload_bytes))))),
      ),
    ),
  ),
)
  where
    open h use {generic as g, specific as s}
    open v use {generic as vg, specific as vs}

pub control_frame-bytes : (h : ControlHeader) → Control.IsValid h → All IsByte (control_frame h)
unfolding control_frame
control_frame-bytes h v = (
  SubtypeLaws.to_u8-IsByte h.common.subtype,
  (
    omega (arith, bit_fits h.common.header_specific_bit, v.common.version_fits, v.data_fits),
    (
      omega (arith, v.length_fits),
      (
        omega arith,
        append_bytes _ _ v.stream_id.bytes
            (append_bytes _ _ (bytes-be16 _ v.stream_id.uid) v.payload_bytes),
      ),
    ),
  ),
)
