-- ===== src/Avtp/Aaf/Packet/Parse.antt =====
-- Reading AAF packets from stream headers (src/avtp/formats/aaf/common.rs).
use rs.Prelude.{ℕ, ◌^◌, ◌<◌, ◌≡◌, ◌≢◌, refl, sym, ap, ◌∙◌, List, [], ◌∷◌, length, All, arith}
use mathlib.Core.Path.{subst}
use rs.Io.{Outcome, ok, panic, IsByte, bind, map_err}
use rs.Io.Outcomes.{
  ok_unique, bind_ok, bind_run, bind_total, map_err_ok, map_err_run, map_err_total,
}
use rs.Io.Stream.{BitReader}
use rs.Io.Fixed.{parse_array}
use rs.Avtp.Headers.Stream
use rs.Avtp.Headers.Stream.{
  GenericStreamData, SpecificStreamData, StreamHeader, stream_id_valid, new_specific,
}
use rs.Avtp.Aaf.Data.{
  AafFormat, AafSpecificData, IsValidSpecific, format_try_from, format_try_from-format_u8,
}
use rs.Avtp.Aaf.Packet.{
  Aaf, AafVariant, InvalidAaf, Flags, validate_stream_data, from_header, read_flags,
  variant_from_specific, format_reserved, format_specific_error, first_octet, other_octets,
}
use rs.Avtp.Aaf.Packet.Octets.{flags_of, flags_of-octets, flags_of_octets}
use rs.Avtp.Aaf.Packet.Variant.{
  specific, specific-IsValidSpecific, variant_round_trip, variant-IsValid, variant_total,
}
use rs.Avtp.Aaf.Packet.Laws.{IsValid, validate_iff, validate_total, flags, header_of, bit_below}

module _ ⦃r : BitReader⦄ where
  build : StreamHeader → Flags → AafVariant → Aaf
  build h f v = record {
    stream_data = h.generic;
    format_data = v;
    sparse_timestamp = f.sparse_timestamp;
    event_flags = f.event_flags;
  }

  raw : StreamHeader → Flags → AafFormat → AafSpecificData
  raw h f format = record {
    format = format;
    aaf_format_specific_data_1 = other_octets h.specific.format_specific_data_2;
    asfd = f.asfd;
    aaf_format_specific_data_2 = f.aaf_format_specific_data_2;
    aaf_format_specific_payload = h.specific.stream_data_payload;
  }

  typed : StreamHeader → Flags → AafFormat → Outcome InvalidAaf Aaf
  typed h f format =
      bind (map_err format_specific_error (variant_from_specific (raw h f format)))
        λ v. ok (build h f v)

  flagged : StreamHeader → Flags → Outcome InvalidAaf Aaf
  flagged h f =
      bind
        (map_err format_reserved (format_try_from (first_octet h.specific.format_specific_data_2)))
        (typed h f)

  steps :
      (h : StreamHeader)
      → from_header h
        ≡ bind
            (validate_stream_data h.generic)
            λ _. bind (parse_array read_flags h.specific.format_specific_data_3) (flagged h)
  unfolding from_header flagged typed raw build
  steps h = refl

  -- The conversion of the stream header of a well-formed AAF packet, PCM or AES3, gives the packet
  -- back.
  pub from_header-header_of : (a : Aaf) → IsValid a → from_header (header_of a) ≡ ok a
  unfolding header_of flags flagged typed raw build
  from_header-header_of a v =
      let (d, len) = specific-IsValidSpecific a.format_data v.variant in
      let s = specific a.format_data in
      steps (header_of a)
      ∙ bind_run _ ((validate_iff a.stream_data).1 v.accepted) (
          bind_run (flagged (header_of a))
            (flags_of_octets _ _ (
                omega
                  (arith, d.asfd_fits, d.data_2_fits, v.events_fit, bit_below a.sparse_timestamp))
              ∙ ap ok (flags_of-octets (flags a) d.asfd_fits v.events_fit))
            (bind_run _ (map_err_run _ (format_try_from-format_u8 s.format))
              (bind_run _ (map_err_run _ (variant_round_trip a.format_data v.variant)) refl)))

  -- Any two octets hold flags in range.
  parsed :
      {E : Type 0} (l : List ℕ)
      → length l ≡ 2
      → All IsByte l
      → (f : Flags) × (parse_array {E = E} read_flags l ≡ ok f)
        × (f.asfd < 2 ^ 3)
        × (f.event_flags < 2 ^ 4)
        × (f.aaf_format_specific_data_2 < 2 ^ 8)
  unfolding flags_of
  parsed [] e h = absurd (omega (arith, e))
  parsed (x ∷ []) e h = absurd (omega (arith, e))
  parsed (x ∷ y ∷ []) e h = (_, flags_of_octets x y h, omega arith, omega arith, omega arith)
  parsed (x ∷ y ∷ z ∷ l) e h = absurd (omega (arith, e))

  others :
      (l : List ℕ)
      → length l ≡ 4
      → All IsByte l
      → (length (other_octets l) ≡ 3) × All IsByte (other_octets l)
  others [] e h = absurd (omega (arith, e))
  others (x ∷ l) e h = (omega (arith, e), h.1)

  raw-IsValidSpecific :
      (h : StreamHeader) (f : Flags) (format : AafFormat)
      → Stream.IsValid h
      → f.asfd < 2 ^ 3
      → f.aaf_format_specific_data_2 < 2 ^ 8
      → IsValidSpecific (raw h f format)
  unfolding raw
  raw-IsValidSpecific h f format v ha hd =
      let s = v.specific in
      let (len, bytes) = others h.specific.format_specific_data_2 s.data_2_length s.data_2_bytes in
      record {
        data_1_length = len;
        data_1_bytes = bytes;
        asfd_fits = ha;
        data_2_fits = hd;
        payload_bytes = s.payload_bytes;
      }

  -- An AAF packet that the conversion makes of a valid stream header is well-formed, and keeps the
  -- header's generic stream data.
  pub from_header-IsValid :
      (h : StreamHeader) (a : Aaf)
      → Stream.IsValid h
      → from_header h ≡ ok a
      → IsValid a × (a.stream_data ≡ h.generic)
  unfolding flagged typed build raw
  from_header-IsValid h a v e =
      let (u, accepted, rest) = bind_ok _ _ (sym (steps h) ∙ e) in
      let (f, parse, fa, fe, fd) =
        parsed h.specific.format_specific_data_3 v.specific.data_3_length v.specific.data_3_bytes in
      let (format, _, more) =
        bind_ok
          (map_err format_reserved
            (format_try_from (first_octet h.specific.format_specific_data_2)))
          (typed h f) (sym (bind_run (flagged h) parse refl) ∙ rest) in
      let (w, variant, result) =
        bind_ok (map_err format_specific_error (variant_from_specific (raw h f format)))
          (λ w. ok (build h f w)) more in
      let good : IsValid (build h f w) = record {
        generic = v.generic;
        accepted = (validate_iff h.generic).0 accepted;
        variant =
            variant-IsValid (raw h f format) w (raw-IsValidSpecific h f format v fa fd)
              v.specific.payload_length (map_err_ok _ _ variant);
        events_fit = fe;
      } in
      let same : build h f w ≡ a = ok_unique {E = InvalidAaf} _ refl result in
      (subst IsValid same good, ap (λ b. b.stream_data) (sym same))

  format_total : (n : ℕ) → format_try_from n ≢ panic
  unfolding format_try_from
  format_total n e = ground arith

  -- The conversion of a valid stream header does not panic.
  pub from_header_total : (h : StreamHeader) → Stream.IsValid h → from_header h ≢ panic
  unfolding flagged typed
  from_header_total h v e =
      bind_total _ _ (validate_total h.generic)
        (λ u _ q.
          let (f, parse, fa, fe, fd) =
            parsed h.specific.format_specific_data_3 v.specific.data_3_length
              v.specific.data_3_bytes in
          bind_total _ (typed h f)
            (map_err_total _ _ (format_total (first_octet h.specific.format_specific_data_2)))
            (λ format _.
              bind_total _ _
                (map_err_total _ _
                  (variant_total (raw h f format) (raw-IsValidSpecific h f format v fa fd)))
                (λ w _ k. cc))
            (sym (bind_run (flagged h) parse refl) ∙ q))
        (sym (steps h) ∙ e)
