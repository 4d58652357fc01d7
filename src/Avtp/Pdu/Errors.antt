-- ===== src/Avtp/Pdu/Errors.antt =====
-- How `Avtpdu::read` and `Avtpdu::write` fail (src/avtp/avtpdu.rs).
use rs.Prelude.{
  ◌↔◌, ℕ, ◌+◌, ◌*◌, ◌/◌, ◌%◌, ◌<◌, ◌≡◌, ◌≢◌, refl, ap, sym, ◌∙◌, Bool, List, [], ◌∷◌, ◌++◌, All,
  arith, append_assoc, leb, inl, inr,
}
use mathlib.Core.Logic.{if_neg}
use rs.Io.{
  Outcome, ok, err, panic, IoWrapError, IsByte, specific, map_specific, map_err, lift, ◌>>=◌, bind,
}
use rs.Io.Bits.{bit, to_bits, bytes_bits}
use rs.Io.Bytes.{bytes_bits-one, bytes_bits-cons, bytes_bits-append, to_bits-pack, to_bits-bit}
use rs.Io.Stream.{BitReader, BitWriter}
use rs.Io.Run.{NoPanic, NoPanic-bind, NoPanic-lift, NoPanic-pure}
use rs.Avtp.Subtype
use rs.Avtp.Subtype.{Subtype, UnknownSubtype, unknown_subtype, stream, control, alternative, to_u8}
use rs.Avtp.Subtype.Laws as SubtypeLaws
use rs.Avtp.Headers.Common
use rs.Avtp.Headers.Common.{CommonHeader}
use rs.Avtp.Headers.Common.Laws as CommonLaws
use rs.Avtp.Headers.Stream.Laws as StreamLaws
use rs.Avtp.Headers.Control.Laws as ControlLaws
use rs.Avtp.Headers.Alternative
use rs.Avtp.Pdu.{
  Avtpdu, AvtpduError, unknown, incompatible, subtype, header_type, validate_subtype, decode_by,
  decode, read, write,
}

-- The common header that two octets hold, and the four bits that follow it.
common_of : Subtype → ℕ → CommonHeader
common_of s f = record { subtype = s; header_specific_bit = leb 128 f; version = f / 16 % 8 }

common_of-bits :
    (s : Subtype) (f : ℕ)
    → f < 256
    → bytes_bits (to_u8 s ∷ f ∷ []) ≡ Common.layout (common_of s f) ++ to_bits 4 (f % 16)
unfolding Common.layout common_of
common_of-bits s f h =
    bytes_bits-cons (to_u8 s) (f ∷ [])
    ∙ ap (λ l. to_bits 8 (to_u8 s) ++ l) (bytes_bits-one f ∙ second (leb 128 f) refl)
    ∙ sym (
        append_assoc (to_bits 8 (to_u8 s)) ((leb 128 f ∷ []) ++ to_bits 3 (f / 16 % 8))
          (to_bits 4 (f % 16)))
  where
    second :
        (b : Bool)
        → leb 128 f ≡ b
        → to_bits 8 f ≡ ((b ∷ []) ++ to_bits 3 (f / 16 % 8)) ++ to_bits 4 (f % 16)
    second b e =
        ap (to_bits 8) {x = f} (omega arith)
        ∙ to_bits-pack 4 4 8 (f / 16) (f % 16) refl (omega arith) (omega arith)
        ∙ ap (λ l. to_bits 4 l ++ to_bits 4 (f % 16)) (high b e)
        ∙ ap (λ l. l ++ to_bits 4 (f % 16))
            (to_bits-pack 1 3 4 (bit b) (f / 16 % 8) refl (one b) (omega arith))
        ∙ ap (λ l. (l ++ to_bits 3 (f / 16 % 8)) ++ to_bits 4 (f % 16)) (to_bits-bit b)
      where
        one : (x : Bool) → bit x < 2
        one x = ground arith

        high : (x : Bool) → leb 128 f ≡ x → f / 16 ≡ bit x * 8 + f / 16 % 8
        high x q = ground arith

module _ ⦃r : BitReader⦄ where
  read_common :
      (s : Subtype) (f : ℕ) (rest : List ℕ)
      → f < 256
      → All IsByte rest
      → (r' : r.Reader) × (Common.decode (r.endian (to_u8 s ∷ f ∷ rest)) ≡ ok (common_of s f, r'))
  read_common s f rest h hs =
      let start = r.endian (to_u8 s ∷ f ∷ rest) in
      let bits = r.remaining-endian (to_u8 s ∷ f ∷ rest) (SubtypeLaws.to_u8-IsByte s, (h, hs)) in
      let split =
        bits
        ∙ bytes_bits-append (to_u8 s ∷ f ∷ []) rest
        ∙ ap (λ l. l ++ bytes_bits rest) (common_of-bits s f h)
        ∙ append_assoc (Common.layout (common_of s f)) (to_bits 4 (f % 16)) (bytes_bits rest) in
      let (r', e, _) =
        (CommonLaws.decode-layout (common_of s f) (valid s)).run
          (to_bits 4 (f % 16) ++ bytes_bits rest) start split in
      (r', e)
    where
      valid : (s : Subtype) → Common.IsValid (common_of s f)
      valid s = unfold common_of in record { version_fits = omega arith }

  finish :
      Outcome (IoWrapError AvtpduError) (Avtpdu × r.Reader)
      → Outcome (IoWrapError AvtpduError) Avtpdu
  finish o = bind o (λ done. ok done.0)

  read_known :
      (s : Subtype) (f : ℕ) (rest : List ℕ)
      → f < 256
      → All IsByte rest
      → (r' : r.Reader) × (read (to_u8 s ∷ f ∷ rest)
          ≡ finish (decode_by (Subtype.header_type s) (common_of s f) r'))
  unfolding read decode common_of finish
  read_known s f rest h hs =
      let (r', e) = read_common s f rest h hs in (r', rw (e, ◌>>=◌, bind, lift) refl)

  -- Each packet whose subtype is of the alternative family makes the reader panic.
  pub read_alternative :
      (s : Subtype) (f : ℕ) (rest : List ℕ)
      → f < 256
      → All IsByte rest
      → Subtype.header_type s ≡ alternative
      → read (to_u8 s ∷ f ∷ rest) ≡ panic
  read_alternative s f rest h hs alt =
      let (r', e) = read_known s f rest h hs in
      e ∙ ap (λ t. finish (decode_by t (common_of s f) r')) alt ∙ panics (common_of s f) r'
    where
      panics : (c : CommonHeader) (r' : r.Reader) → finish (decode_by alternative c r') ≡ panic
      panics c r' = unfold decode_by finish Alternative.decode_after_common in refl

  decode_by_total :
      (t : Subtype.HeaderType) (c : CommonHeader) → t ≢ alternative → NoPanic (decode_by t c)
  unfolding decode_by
  decode_by_total stream c h =
      NoPanic-bind _ (NoPanic-lift _ (StreamLaws.decode_after_common_total c)) λ x. NoPanic-pure _
  decode_by_total control c h =
      NoPanic-bind _ (NoPanic-lift _ (ControlLaws.decode_after_common_total c)) λ x. NoPanic-pure _
  decode_by_total alternative c h = absurd (h refl)

  finish_total :
      (o : Outcome (IoWrapError AvtpduError) (Avtpdu × r.Reader)) → o ≢ panic → finish o ≢ panic
  unfolding finish
  finish_total (ok a) h = λ e. cc
  finish_total (err x) h = λ e. cc
  finish_total panic h = absurd (h refl)

  -- Every other known subtype is read without a panic, whatever follows it.
  pub read_total :
      (s : Subtype) (f : ℕ) (rest : List ℕ)
      → f < 256
      → All IsByte rest
      → Subtype.header_type s ≢ alternative
      → read (to_u8 s ∷ f ∷ rest) ≢ panic
  read_total s f rest h hs no_alt =
      let (r', e) = read_known s f rest h hs in
      rw e
        (finish_total _ ((decode_by_total (Subtype.header_type s) (common_of s f) no_alt).run r'))

  -- An octet that is the code of no subtype, followed by any octets, is refused with the error
  -- that names it.
  pub read_unknown :
      (b : ℕ) (rest : List ℕ)
      → All IsByte (b ∷ rest)
      → ((s : Subtype) → to_u8 s ≢ b)
      → read (b ∷ rest) ≡ err (specific (unknown (unknown_subtype b)))
  unfolding read decode Common.decode Subtype.decode map_specific
  read_unknown b rest h no_subtype =
      let bits = r.remaining-endian (b ∷ rest) h ∙ bytes_bits-cons b rest in
      let (r', e, _) = r.read_to_consumes 8 b (bytes_bits rest) h.0 (r.endian (b ∷ rest)) bits in
      elim (SubtypeLaws.try_from_cases b) [
        | inl (s, _, same) ↦ absurd (no_subtype s same)
        | inr (refused, _) ↦ rw (e, ◌>>=◌, bind, lift) (rw refused refl)
      ]

  -- Reading two or more octets panics exactly when the first octet is the code of a subtype of the
  -- alternative header family.
  pub read-panic_iff :
      (b f : ℕ) (rest : List ℕ)
      → All IsByte (b ∷ f ∷ rest)
      → (read (b ∷ f ∷ rest) ≡ panic)
        ↔ ((s : Subtype) × (to_u8 s ≡ b) × (Subtype.header_type s ≡ alternative))
  read-panic_iff b f rest (hb, (hf, hs)) = (only_if, if_so)
    where
      known :
          (s : Subtype)
          → to_u8 s ≡ b
          → read (b ∷ f ∷ rest) ≡ panic
          → Dec (Subtype.header_type s ≡ alternative)
          → (s : Subtype) × (to_u8 s ≡ b) × (Subtype.header_type s ≡ alternative)
      known s same p (yes alt) = (s, same, alt)
      known s same p (no other) =
          absurd (read_total s f rest hf hs other (ap (λ c. read (c ∷ f ∷ rest)) same ∙ p))

      only_if :
          read (b ∷ f ∷ rest) ≡ panic
          → (s : Subtype) × (to_u8 s ≡ b) × (Subtype.header_type s ≡ alternative)
      only_if p = elim (SubtypeLaws.try_from_cases b) [
        | inl (s, _, same) ↦
            known s same p (Subtype.HeaderType-discrete (Subtype.header_type s) alternative)
        | inr (_, none_such) ↦ cc (p, read_unknown b (f ∷ rest) (hb, (hf, hs)) none_such)
      ]

      if_so :
          (s : Subtype) × (to_u8 s ≡ b) × (Subtype.header_type s ≡ alternative)
          → read (b ∷ f ∷ rest) ≡ panic
      if_so (s, same, alt) =
          ap (λ c. read (c ∷ f ∷ rest)) (sym same) ∙ read_alternative s f rest hf hs alt

module _ ⦃w : BitWriter⦄ where
  -- A packet whose subtype does not belong to its header family is refused, with the error that
  -- names both, whatever the buffer holds.
  pub write_incompatible :
      (p : Avtpdu) (buffer : List ℕ)
      → Subtype.header_type (subtype p) ≢ header_type p
      → write p buffer
        ≡ err
            (specific (incompatible (record { subtype = subtype p; header_type = header_type p })))
  unfolding write
  write_incompatible p buffer h = rw (refused, bind, map_err) refl
    where
      refused :
          validate_subtype p ≡ err (record { subtype = subtype p; header_type = header_type p })
      refused = unfold validate_subtype in rw (if_neg _ h) refl
