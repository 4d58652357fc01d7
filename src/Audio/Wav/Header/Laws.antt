-- ===== src/Audio/Wav/Header/Laws.antt =====
-- src/audio/wav.rs: a header against the `fmt ` chunk that is written for it.
use rs.Prelude.Text.{same}
use rs.Prelude.{
  ℕ, zero, suc, ◌+◌, ◌-◌, ◌/◌, ◌%◌, ◌^◌, ◌≤◌, ◌<◌, ◌≡◌, ◌≢◌, refl, ap, ◌∙◌, true, false, List, [],
  ◌∷◌, length, drop, ltb, arith, Bool-cases, inl, inr, ltb→le, le→leb,
}
use rs.Io.{ok, err, panic, bind}
use rs.Io.Octets.{le16, le32, from_le16, from_le16-le16, from_le32-le32}
use rs.Io.Outcomes.{bind_total}
use rs.Audio.Wav.{
  fmt, wave_format_extensible, invalid_chunk_size, WavChunk, WavAudioFormat, other,
  audio_format_from, audio_format_u16, WavHeader,
}
use rs.Audio.Wav.Header.{
  u16_at, u32_at, front, found_size, is_extensible, subformat_audio_format, extensible_fields,
  format_fields, from_fmt_chunk_unchecked, needs_extensible_format, extensible_fmt_extension,
  needs_extensible, written_extension, format_tag, byte_rate, block_align, into_wav_chunk,
}

-- The values of the Rust type, where `Pcm` and `IeeeFloat` do not also appear as `Other`.
pub record IsHeader (h : WavHeader) : Type 0 where
  pub channels : h.channels < 2 ^ 16
  pub sample_rate : h.sample_rate < 2 ^ 32
  pub bits : h.bits_per_sample < 2 ^ 16
  pub valid_bits : h.valid_bits_per_sample < 2 ^ 16
  pub tag : audio_format_u16 h.audio_format < 2 ^ 16
  pub canonical : audio_format_from (audio_format_u16 h.audio_format) ≡ h.audio_format

length-drop : (n : ℕ) (xs : List ℕ) → length (drop n xs) ≡ length xs - n
length-drop zero xs = omega arith
length-drop (suc n) [] = omega arith
length-drop (suc n) (x ∷ xs) = omega (arith, length-drop n xs)

u16_at_total :
    {E : Type 0} (n : ℕ) (xs : List ℕ) → n + 2 ≤ length xs → u16_at {E = E} (drop n xs) ≢ panic
unfolding u16_at
u16_at_total {E} n xs h = go (drop n xs) (omega (arith, length-drop n xs))
  where
    go : (ys : List ℕ) → 2 ≤ length ys → u16_at {E = E} ys ≢ panic
    go [] h = absurd (omega arith)
    go (a ∷ []) h = absurd (omega arith)
    go (a ∷ b ∷ rest) h = λ k. cc

u32_at_total :
    {E : Type 0} (n : ℕ) (xs : List ℕ) → n + 4 ≤ length xs → u32_at {E = E} (drop n xs) ≢ panic
unfolding u32_at
u32_at_total {E} n xs h = go (drop n xs) (omega (arith, length-drop n xs))
  where
    go : (ys : List ℕ) → 4 ≤ length ys → u32_at {E = E} ys ≢ panic
    go [] h = absurd (omega arith)
    go (a ∷ []) h = absurd (omega arith)
    go (a ∷ b ∷ []) h = absurd (omega arith)
    go (a ∷ b ∷ c ∷ []) h = absurd (omega arith)
    go (a ∷ b ∷ c ∷ d ∷ rest) h = λ k. cc

extensible_fields_total : (id bs : List ℕ) (bits : ℕ) → extensible_fields id bs bits ≢ panic
unfolding extensible_fields
extensible_fields_total id bs bits = elim (Bool-cases (ltb (length bs) 40)) [
  | inl e ↦ rw e (λ k. cc)
  | inr e ↦
      let long : 40 ≤ length bs = ltb→le _ _ e in
      rw e (
        bind_total _ _ (u16_at_total 18 bs (omega arith))
          (λ raw p. bind_total _ _ (u16_at_total 24 bs (omega arith)) (λ sub q. λ k. cc)))
]

format_fields_total :
    (id bs : List ℕ) (f : WavAudioFormat) (bits : ℕ) → format_fields id bs f bits ≢ panic
unfolding format_fields
format_fields_total id bs f bits = elim (Bool-cases (is_extensible f)) [
  | inl e ↦ rw e (extensible_fields_total id bs bits)
  | inr e ↦ rw e (λ k. cc)
]

-- No index is out of range.
pub from_fmt_chunk_total : (c : WavChunk) → from_fmt_chunk_unchecked c ≢ panic
unfolding from_fmt_chunk_unchecked
from_fmt_chunk_total c = elim (Bool-cases (ltb (length c.payload) 16)) [
  | inl e ↦ rw e (λ k. cc)
  | inr e ↦
      let long : 16 ≤ length c.payload = ltb→le _ _ e in
      rw e (
        bind_total _ _ (u16_at_total 0 c.payload (omega arith)) (λ tag p.
          bind_total _ _ (u16_at_total 14 c.payload (omega arith)) (λ bits q.
            bind_total _ _ (format_fields_total _ _ _ _) (λ (f, v) r.
              bind_total _ _ (u16_at_total 2 c.payload (omega arith)) (λ channels t.
                bind_total _ _ (u32_at_total 4 c.payload (omega arith)) (λ rate u. λ k. cc))))))
]

module _ (h : WavHeader) (ext : List ℕ) where
  abbrev pub chunk : WavChunk
  chunk = into_wav_chunk h ext

  length-payload : length chunk.payload ≡ 16 + length (written_extension h ext)
  unfolding into_wav_chunk le16 le32
  length-payload = omega arith

  pub drop-payload : drop 16 chunk.payload ≡ written_extension h ext
  unfolding into_wav_chunk le16 le32
  drop-payload = refl

  long : ltb (length chunk.payload) 16 ≡ false
  long = ground (arith, length-payload)

  -- What is decoded of the chunk: the fields as they are, the encoding and the valid bits by the tag.
  pub reread :
      IsHeader h
      → from_fmt_chunk_unchecked chunk
        ≡ bind
            (format_fields fmt chunk.payload
              (audio_format_from (from_le16 (format_tag h ext % 256) (format_tag h ext / 256)))
              h.bits_per_sample)
            (λ (f, v). ok (record h { audio_format = f; valid_bits_per_sample = v }))
  unfolding from_fmt_chunk_unchecked into_wav_chunk u16_at u32_at le16 le32
  reread p =
      rw
        (
          long,
          from_le16-le16 h.channels p.channels,
          from_le16-le16 h.bits_per_sample p.bits,
          from_le32-le32 h.sample_rate p.sample_rate,
        )
        refl

-- An encoding that takes no extension, and one that the extension is made for.
plain_tag :
    (h : WavHeader) (ext : List ℕ)
    → needs_extensible h ext ≡ false
    → IsHeader h
    → audio_format_from (from_le16 (format_tag h ext % 256) (format_tag h ext / 256))
      ≡ h.audio_format
unfolding format_tag
plain_tag h ext e p = rw (e, from_le16-le16 (audio_format_u16 h.audio_format) p.tag) p.canonical

pub extensible_tag :
    (h : WavHeader) (ext : List ℕ)
    → needs_extensible h ext ≡ true
    → audio_format_from (from_le16 (format_tag h ext % 256) (format_tag h ext / 256))
      ≡ other wave_format_extensible
unfolding format_tag audio_format_from from_le16
extensible_tag h ext e = rw e refl

not_needed :
    (h : WavHeader) (ext : List ℕ)
    → needs_extensible h ext ≡ false
    → h.valid_bits_per_sample ≡ h.bits_per_sample
unfolding needs_extensible needs_extensible_format
not_needed h ext e = ground arith

canonical_fields :
    (h : WavHeader)
    → IsHeader h
    → h.valid_bits_per_sample ≢ 0
    → needs_extensible h [] ≡ true
    → extensible_fields fmt (chunk h []).payload h.bits_per_sample
      ≡ ok (h.audio_format, h.valid_bits_per_sample)
unfolding extensible_fields into_wav_chunk written_extension extensible_fmt_extension u16_at le16
    le32 front subformat_audio_format same
canonical_fields h p nz e =
    rw
      (
        e,
        from_le16-le16 h.valid_bits_per_sample p.valid_bits,
        from_le16-le16 (audio_format_u16 h.audio_format) p.tag,
        p.canonical,
      )
      (ground arith)

-- For a header in the ranges of its types, with some valid bits and an encoding that is not
-- spelled `Other` of the code of another one: if the extension is empty where the header needs the
-- extensible format, and the encoding is not the extensible tag where it does not, the header is
-- read back from the chunk that is written for it.
pub from_fmt_chunk_unchecked-into_wav_chunk :
    (h : WavHeader) (ext : List ℕ)
    → IsHeader h
    → h.valid_bits_per_sample ≢ 0
    → (needs_extensible h ext ≡ true → ext ≡ [])
    → (needs_extensible h ext ≡ false → is_extensible h.audio_format ≡ false)
    → from_fmt_chunk_unchecked (into_wav_chunk h ext) ≡ ok h
unfolding format_fields is_extensible extensible_fields
from_fmt_chunk_unchecked-into_wav_chunk h ext p nz own plain =
    reread h ext p ∙ elim (Bool-cases (needs_extensible h ext)) [
      | inl e ↦ rw (extensible_tag h ext e, is_extensible) (made ext e (own e))
      | inr e ↦ rw (plain_tag h ext e p, plain e, ← not_needed h ext e) refl
    ]
  where
    made :
        (xs : List ℕ)
        → needs_extensible h xs ≡ true
        → xs ≡ []
        → bind
            (extensible_fields fmt (chunk h xs).payload h.bits_per_sample)
            (λ (f, v). ok (record h { audio_format = f; valid_bits_per_sample = v }))
          ≡ ok h
    made [] e q = rw (canonical_fields h p nz e) refl
    made (x ∷ xs) e q = absurd (cc)

-- For a header in the ranges of its types that needs the extensible format, and an extension of
-- some but fewer than 24 bytes, the chunk that is written is refused when it is read, as a `fmt `
-- chunk of fewer than 40 bytes.
pub from_fmt_chunk_unchecked_short :
    (h : WavHeader) (ext : List ℕ)
    → IsHeader h
    → needs_extensible_format h ≡ true
    → ext ≢ []
    → length ext < 24
    → from_fmt_chunk_unchecked (into_wav_chunk h ext)
      ≡ err (invalid_chunk_size fmt (16 + length ext) (40, 2 ^ 32 - 1))
unfolding format_fields extensible_fields is_extensible
from_fmt_chunk_unchecked_short h ext p needs some_bytes short =
    reread h ext p ∙ rw (extensible_tag h ext wanted, is_extensible, too_short, size) refl
  where
    wanted : needs_extensible h ext ≡ true
    wanted = unfold needs_extensible in ground arith

    kept : (xs : List ℕ) → xs ≢ [] → written_extension h xs ≡ xs
    kept [] q = absurd (q refl)
    kept (x ∷ xs) q = unfold written_extension in refl

    payload_length : length (chunk h ext).payload ≡ 16 + length ext
    payload_length = omega (arith, length-payload h ext, ap length (kept ext some_bytes))

    too_short : ltb (length (chunk h ext).payload) 40 ≡ true
    too_short = ground (arith, payload_length)

    size : found_size (length (chunk h ext).payload) ≡ 16 + length ext
    size = unfold found_size in ground (arith, payload_length)

-- A long extension decides the encoding alone: the header's own is not written.
pub into_wav_chunk_long :
    (h : WavHeader) (f : WavAudioFormat) (ext : List ℕ)
    → 24 ≤ length ext
    → into_wav_chunk (record h { audio_format = f }) ext ≡ into_wav_chunk h ext
unfolding into_wav_chunk format_tag needs_extensible written_extension byte_rate block_align
into_wav_chunk_long h f [] le = absurd (omega arith)
into_wav_chunk_long h f (x ∷ xs) le = rw (le→leb 24 (length (x ∷ xs)) le) refl
