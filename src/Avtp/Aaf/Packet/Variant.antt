-- ===== src/Avtp/Aaf/Packet/Variant.antt =====
-- The variants of an AAF packet against its raw format-specific fields
-- (src/avtp/formats/aaf/common.rs).
use rs.Prelude.{◌^◌, ◌<◌, ◌≡◌, ◌≢◌, ◌⊎◌, inl, inr, refl, sym, ◌∙◌, length, arith}
use mathlib.Core.Path.{subst}
use rs.Io.{Outcome, ok, panic, bind, map_err}
use rs.Io.Outcomes.{
  ok_unique, bind_ok, bind_run, bind_total, map_err_ok, map_err_run, map_err_total,
}
use rs.Io.Stream.{BitReader, BitWriter}
use rs.Avtp.Aaf.Data.{
  AafFormat, AafSpecificData, IsValidSpecific, aes3_from_specific, aes3_into_specific,
}
use rs.Avtp.Aaf.Pcm
use rs.Avtp.Aaf.Pcm.{AafPcm}
use rs.Avtp.Aaf.Pcm.Octets as PcmOctets
use rs.Avtp.Aaf.Pcm.Specific.{
  specific_of, aaf_format, into_specific_run, from_specific-specific_of, from_specific-IsValid,
  from_specific_total,
}
use rs.Avtp.Aaf.Packet.{
  AafVariant, pcm, aes3, AafFormatSpecificError, pcm_error, variant_from_specific,
  variant_into_specific,
}

abbrev pub IsValid : AafVariant → Type 0
IsValid (pcm p) = Pcm.IsValid p
IsValid (aes3 a) =
    IsValidSpecific a.specific
    × (a.specific.format ≡ AafFormat.aes3_32_bit)
    × (length a.specific.aaf_format_specific_payload < 2 ^ 16)

-- The raw fields that a variant is written as.
pub specific : AafVariant → AafSpecificData
specific (pcm p) = specific_of p
specific (aes3 a) = a.specific

pub specific-IsValidSpecific :
    (v : AafVariant)
    → IsValid v
    → IsValidSpecific (specific v) × (length (specific v).aaf_format_specific_payload < 2 ^ 16)
unfolding specific specific_of
specific-IsValidSpecific (pcm p) h = (
  record {
    data_1_length = refl;
    data_1_bytes =
        omega (
          arith,
          PcmOctets.protocol_value_fits p.nominal_sample_rate,
          h.channels_fit,
          h.depth_fits,
        );
    asfd_fits = omega arith;
    data_2_fits = omega arith;
    payload_bytes = h.payload_bytes;
  },
  h.payload_length,
)
specific-IsValidSpecific (aes3 a) (v, _, len) = (v, len)

aes3_or_not : (f : AafFormat) → (f ≡ AafFormat.aes3_32_bit) ⊎ (f ≢ AafFormat.aes3_32_bit)
aes3_or_not AafFormat.aes3_32_bit = inl refl
aes3_or_not AafFormat.user = inr (λ e. cc)
aes3_or_not AafFormat.float_32_bit = inr (λ e. cc)
aes3_or_not AafFormat.int_32_bit = inr (λ e. cc)
aes3_or_not AafFormat.int_24_bit = inr (λ e. cc)
aes3_or_not AafFormat.int_16_bit = inr (λ e. cc)

pcm_not_aes3 : (f : Pcm.PcmFormat) → aaf_format f ≢ AafFormat.aes3_32_bit
unfolding aaf_format
pcm_not_aes3 f e = ground arith

module _ ⦃w : BitWriter⦄ where
  pub variant_into_specific_run :
      {E : Type 0} (v : AafVariant) → IsValid v → variant_into_specific {E = E} v ≡ ok (specific v)
  unfolding variant_into_specific specific aes3_into_specific
  variant_into_specific_run (pcm p) h = into_specific_run p h
  variant_into_specific_run (aes3 a) h = refl

module _ ⦃r : BitReader⦄ where
  as_pcm : AafSpecificData → Outcome AafFormatSpecificError AafVariant
  as_pcm s = bind (map_err pcm_error (Pcm.from_specific s)) λ p. ok (pcm p)

  pcm_step :
      (s : AafSpecificData) → s.format ≢ AafFormat.aes3_32_bit → variant_from_specific s ≡ as_pcm s
  unfolding variant_from_specific as_pcm
  pcm_step s h = go s.format h
    where
      go :
          (f : AafFormat)
          → f ≢ AafFormat.aes3_32_bit
          → variant_from_specific (record s { format = f }) ≡ as_pcm (record s { format = f })
      go AafFormat.user k = unfold variant_from_specific as_pcm in refl
      go AafFormat.float_32_bit k = unfold variant_from_specific as_pcm in refl
      go AafFormat.int_32_bit k = unfold variant_from_specific as_pcm in refl
      go AafFormat.int_24_bit k = unfold variant_from_specific as_pcm in refl
      go AafFormat.int_16_bit k = unfold variant_from_specific as_pcm in refl
      go AafFormat.aes3_32_bit k = absurd (k refl)

  aes3_step :
      (s : AafSpecificData)
      → s.format ≡ AafFormat.aes3_32_bit
      → variant_from_specific s ≡ ok (aes3 (record { specific = s }))
  aes3_step s e = go s.format e
    where
      go :
          (f : AafFormat)
          → f ≡ AafFormat.aes3_32_bit
          → variant_from_specific (record s { format = f })
            ≡ ok (aes3 (record { specific = record s { format = f } }))
      go AafFormat.aes3_32_bit k = unfold variant_from_specific aes3_from_specific in refl
      go AafFormat.user k = absurd cc
      go AafFormat.float_32_bit k = absurd cc
      go AafFormat.int_32_bit k = absurd cc
      go AafFormat.int_24_bit k = absurd cc
      go AafFormat.int_16_bit k = absurd cc

  pub variant_round_trip : (v : AafVariant) → IsValid v → variant_from_specific (specific v) ≡ ok v
  unfolding specific as_pcm specific_of aaf_format
  variant_round_trip (pcm p) h =
      pcm_step (specific_of p) (pcm_not_aes3 p.format)
      ∙ bind_run _ (map_err_run _ (from_specific-specific_of p h)) refl
  variant_round_trip (aes3 a) (v, f, len) = aes3_step a.specific f

  pub variant-IsValid :
      (s : AafSpecificData) (v : AafVariant)
      → IsValidSpecific s
      → length s.aaf_format_specific_payload < 2 ^ 16
      → variant_from_specific s ≡ ok v
      → IsValid v
  unfolding as_pcm
  variant-IsValid s v h len e = elim (aes3_or_not s.format) [
    | inl f ↦ subst IsValid (ok_unique (variant_from_specific s) (aes3_step s f) e) (h, f, len)
    | inr f ↦
        let (p, q, k) =
          bind_ok (map_err pcm_error (Pcm.from_specific s)) (λ p. ok (pcm p))
            (sym (pcm_step s f) ∙ e) in
        subst IsValid (ok_unique _ refl k) (from_specific-IsValid s p h (map_err_ok _ _ q)).0
  ]

  pub variant_total : (s : AafSpecificData) → IsValidSpecific s → variant_from_specific s ≢ panic
  unfolding as_pcm
  variant_total s h e = elim (aes3_or_not s.format) [
    | inl f ↦ cc (aes3_step s f, e)
    | inr f ↦
        bind_total _ _ (map_err_total _ _ (from_specific_total s h)) (λ p _ k. cc)
          (sym (pcm_step s f) ∙ e)
  ]
