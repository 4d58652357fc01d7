-- ===== src/Avtp/Aaf/Pcm/Specific.antt =====
-- Uncompressed audio against its raw format-specific fields (src/avtp/formats/aaf/pcm.rs).
use rs.Prelude.{
  ℕ, ◌+◌, ◌*◌, ◌/◌, ◌%◌, ◌^◌, ◌<◌, ◌≡◌, ◌≢◌, refl, sym, ap, ◌∙◌, List, [], ◌∷◌, length, All, arith,
  some,
}
use native.Mathlib.Nat.{div-add-mod}
use rs.Io.{Outcome, ok, panic, IsByte, bind, unwrap, map_err}
use rs.Io.Outcomes.{bind_ok, bind_run, bind_total, map_err_ok, map_err_run, map_err_total}
use rs.Io.Stream.{BitReader, BitWriter}
use rs.Io.Fixed.{parse_array}
use rs.Avtp.Aaf.Data.{
  AafFormat, AafSpecificData, IsValidSpecific, format_u8, format_try_from,
  format_try_from-format_u8,
}
use rs.Avtp.Aaf.Pcm.{
  AafPcm, PcmFields, PcmFormat, InvalidPcmAaf, IsValid, new, from_specific, into_specific,
  read_fields, word_size, rate_try_from, protocol_value, pcm_format_u8, pcm_format_try_from,
  sample_count, sample_rate_reserved, non_pcm_format,
}
use rs.Avtp.Aaf.Pcm.Octets.{octets, fields_of_octets, octets_of_fields, protocol_value_fits}
use rs.Avtp.Aaf.Pcm.Laws.{made, new_iff, new_total, rate_try_from_iff}

-- The AAF format of the same number.
unfoldable pub aaf_format : PcmFormat → AafFormat
aaf_format PcmFormat.user = AafFormat.user
aaf_format PcmFormat.float_32_bit = AafFormat.float_32_bit
aaf_format PcmFormat.int_32_bit = AafFormat.int_32_bit
aaf_format PcmFormat.int_24_bit = AafFormat.int_24_bit
aaf_format PcmFormat.int_16_bit = AafFormat.int_16_bit

pub aaf_of_pcm : (f : PcmFormat) → format_u8 (aaf_format f) ≡ pcm_format_u8 f
unfolding aaf_format format_u8 pcm_format_u8
aaf_of_pcm f = ground arith

aaf_try : (f : PcmFormat) → format_try_from (pcm_format_u8 f) ≡ ok (aaf_format f)
aaf_try f = ap format_try_from (sym (aaf_of_pcm f)) ∙ format_try_from-format_u8 (aaf_format f)

pcm_try : (f : PcmFormat) → pcm_format_try_from (format_u8 (aaf_format f)) ≡ ok f
unfolding aaf_format format_u8 pcm_format_try_from
pcm_try f = ground arith

unfoldable pub specific_of : AafPcm → AafSpecificData
specific_of p = record {
  format = aaf_format p.format;
  aaf_format_specific_data_1 = octets p;
  asfd = 0;
  aaf_format_specific_data_2 = 0;
  aaf_format_specific_payload = p.payload;
}

pcm_of :
    (a : AafFormat) (f : PcmFormat) → pcm_format_try_from (format_u8 a) ≡ ok f → aaf_format f ≡ a
unfolding aaf_format format_u8 pcm_format_try_from
pcm_of a f h = ground arith

pcm_try_total : (n : ℕ) → pcm_format_try_from n ≢ panic
unfolding pcm_format_try_from
pcm_try_total n h = ground arith

rate_try_total : (n : ℕ) → rate_try_from n ≢ panic
unfolding rate_try_from
rate_try_total n h = ground arith

module _ ⦃w : BitWriter⦄ where
  pub into_specific_run :
      {E : Type 0} (p : AafPcm) → IsValid p → into_specific {E = E} p ≡ ok (specific_of p)
  unfolding into_specific specific_of
  into_specific_run p v =
      bind_run _ (octets_of_fields p v.channels_fit v.depth_fits)
        (bind_run _ (ap unwrap (aaf_try p.format)) refl)

module _ ⦃r : BitReader⦄ where
  -- The steps after the reads.
  finish : AafSpecificData → PcmFormat → PcmFields → Outcome InvalidPcmAaf AafPcm
  finish s f fields =
      bind (map_err sample_rate_reserved (rate_try_from fields.nominal_sample_rate))
        λ rate. new rate fields.channels_per_frame f fields.bit_depth s.aaf_format_specific_payload

  steps :
      (s : AafSpecificData)
      → from_specific s
        ≡ bind
            (map_err (λ _. non_pcm_format s.format) (pcm_format_try_from (format_u8 s.format)))
            λ f. bind (parse_array read_fields s.aaf_format_specific_data_1) (finish s f)
  unfolding from_specific finish
  steps s = refl

  -- The raw format-specific fields of a well-formed PCM packet convert back to the packet.
  pub from_specific-specific_of : (p : AafPcm) → IsValid p → from_specific (specific_of p) ≡ ok p
  unfolding specific_of finish made
  from_specific-specific_of p v =
      let hr = protocol_value_fits p.nominal_sample_rate in
      steps (specific_of p)
      ∙ bind_run _ (map_err_run _ (pcm_try p.format)) (
          bind_run (finish (specific_of p) p.format)
            (fields_of_octets
              (protocol_value p.nominal_sample_rate * 16 + p.channels_per_frame / 256)
              (p.channels_per_frame % 256) p.bit_depth
              (omega (arith, hr, v.channels_fit, v.depth_fits)))
            (bind_run _
              (map_err_run _
                ((rate_try_from_iff _ p.nominal_sample_rate).1 (omega (arith, hr, v.channels_fit))))
              (ap (λ c. new p.nominal_sample_rate c p.format p.bit_depth p.payload)
                  (omega (arith, v.channels_fit))
                ∙ (new_iff _ _ _ _ _ p v.channels_fit v.depth_fits v.payload_bytes).1 (refl, v))))

  -- Any three octets hold fields in range.
  parsed :
      {E : Type 0} (l : List ℕ)
      → length l ≡ 3
      → All IsByte l
      → (fields : PcmFields) × (parse_array {E = E} read_fields l ≡ ok fields)
        × (fields.channels_per_frame < 2 ^ 10)
        × (fields.bit_depth < 2 ^ 8)
  parsed [] e h = absurd (omega (arith, e))
  parsed (x ∷ []) e h = absurd (omega (arith, e))
  parsed (x ∷ y ∷ []) e h = absurd (omega (arith, e))
  parsed (x ∷ y ∷ z ∷ []) e h = (_, fields_of_octets x y z h, omega arith, omega arith)
  parsed (x ∷ y ∷ z ∷ t ∷ l) e h = absurd (omega (arith, e))

  -- All that is accepted is well-formed, and keeps the format and the payload.
  pub from_specific-IsValid :
      (s : AafSpecificData) (p : AafPcm)
      → IsValidSpecific s
      → from_specific s ≡ ok p
      → IsValid p × (p.payload ≡ s.aaf_format_specific_payload) × (aaf_format p.format ≡ s.format)
  unfolding finish made
  from_specific-IsValid s p v h =
      let (f, format, rest) = bind_ok _ _ (sym (steps s) ∙ h) in
      let (fields, parse, fc, fd) =
        parsed s.aaf_format_specific_data_1 v.data_1_length v.data_1_bytes in
      let (rate, _, built) =
        bind_ok (map_err sample_rate_reserved (rate_try_from fields.nominal_sample_rate))
          (λ rate.
            new rate fields.channels_per_frame f fields.bit_depth s.aaf_format_specific_payload)
          (sym (bind_run (finish s f) parse refl) ∙ rest) in
      let (e, valid) =
        (new_iff rate fields.channels_per_frame f fields.bit_depth s.aaf_format_specific_payload p
            fc fd v.payload_bytes).0
          built in
      (
        valid,
        ap (λ q. q.payload) e,
        ap (λ q. aaf_format q.format) e ∙ pcm_of s.format f (map_err_ok _ _ format),
      )

  -- The conversion gives a packet or an error, never a panic.
  pub from_specific_total : (s : AafSpecificData) → IsValidSpecific s → from_specific s ≢ panic
  unfolding finish
  from_specific_total s v h =
      bind_total _ _ (map_err_total _ _ (pcm_try_total (format_u8 s.format)))
        (λ f _ q.
          let (fields, parse, _, _) =
            parsed s.aaf_format_specific_data_1 v.data_1_length v.data_1_bytes in
          bind_total _ _ (map_err_total _ _ (rate_try_total fields.nominal_sample_rate))
            (λ rate _.
              new_total rate fields.channels_per_frame f fields.bit_depth
                s.aaf_format_specific_payload)
            (sym (bind_run (finish s f) parse refl) ∙ q))
        (sym (steps s) ∙ h)

-- Of a well-formed packet whose format has a sample word, the payload is `sample_count` whole
-- frames, of one word for each channel.
pub sample_count_frames :
    (p : AafPcm) (w : ℕ)
    → IsValid p
    → word_size p.format ≡ some w
    → (n : ℕ) × (sample_count p ≡ some n) × (n * (w / 8 * p.channels_per_frame) ≡ length p.payload)
unfolding sample_count
sample_count_frames p w v e =
    let frame = w / 8 * p.channels_per_frame in
    (
      length p.payload / frame,
      rw (sample_count, e) refl,
      omega (arith, v.whole_frames w e, div-add-mod (length p.payload) frame),
    )
