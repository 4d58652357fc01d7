-- ===== src/Audio/Wav/Header/Stored.antt =====
-- src/audio/wav.rs: headers and extensions that a file stores and gives back.
use rs.Prelude.Text.{same}
use rs.Prelude.{
  ℕ, ◌≡◌, ◌≢◌, refl, ◌∙◌, ◌⊎◌, true, false, List, [], ◌∷◌, Bool-cases, inl, inr, arith,
  if◌then◌else◌,
}
use rs.Io.{ok}
use rs.Io.Octets.{le16, le32, from_le16-le16}
use rs.Audio.Wav.{fmt, WavHeader, audio_format_u16}
use rs.Audio.Wav.Header.{
  u16_at, front, is_extensible, subformat_audio_format, extensible_fields, format_fields,
  from_fmt_chunk_unchecked, extensible_fmt_extension, needs_extensible, written_extension,
  into_wav_chunk,
}
use rs.Audio.Wav.Header.Laws.{
  IsHeader, chunk, reread, extensible_tag, from_fmt_chunk_unchecked-into_wav_chunk,
}

-- A header with some valid bits, and an extension: none, or the 24 bytes that say the same as the
-- header, where the chunk is in the extensible format, and any that is not too long elsewhere.
pub record IsStored (h : WavHeader) (ext : List ℕ) : Type 0 where
  pub header : IsHeader h
  pub some_bits : h.valid_bits_per_sample ≢ 0
  pub own : needs_extensible h ext ≡ true → (ext ≡ []) ⊎ (ext ≡ extensible_fmt_extension h)
  pub plain : needs_extensible h ext ≡ false → is_extensible h.audio_format ≡ false

-- The extension that is in the file.
abbrev pub stored_extension : WavHeader → List ℕ → List ℕ
stored_extension h ext = if needs_extensible h ext then extensible_fmt_extension h else ext

canonical_back :
    (h : WavHeader)
    → IsHeader h
    → h.valid_bits_per_sample ≢ 0
    → extensible_fields fmt (chunk h (extensible_fmt_extension h)).payload h.bits_per_sample
      ≡ ok (h.audio_format, h.valid_bits_per_sample)
unfolding extensible_fields into_wav_chunk written_extension extensible_fmt_extension u16_at le16
    le32 front subformat_audio_format same
canonical_back h p nz =
    rw
      (
        from_le16-le16 h.valid_bits_per_sample p.valid_bits,
        from_le16-le16 (audio_format_u16 h.audio_format) p.tag,
        p.canonical,
      )
      (ground arith)

canonical_needed : (h : WavHeader) → needs_extensible h (extensible_fmt_extension h) ≡ true
unfolding needs_extensible extensible_fmt_extension le16 le32
canonical_needed h = refl

from_canonical :
    (h : WavHeader)
    → IsHeader h
    → h.valid_bits_per_sample ≢ 0
    → from_fmt_chunk_unchecked (into_wav_chunk h (extensible_fmt_extension h)) ≡ ok h
unfolding format_fields is_extensible
from_canonical h p nz =
    reread h (extensible_fmt_extension h) p
    ∙ rw
        (
          extensible_tag h (extensible_fmt_extension h) (canonical_needed h),
          is_extensible,
          canonical_back h p nz,
        )
        refl

pub from_fmt_chunk_unchecked_stored :
    (h : WavHeader) (ext : List ℕ)
    → IsStored h ext
    → from_fmt_chunk_unchecked (into_wav_chunk h ext) ≡ ok h
from_fmt_chunk_unchecked_stored h ext s = elim (Bool-cases (needs_extensible h ext)) [
  | inl e ↦ elim (s.own e) [
    | inl none_there ↦
        from_fmt_chunk_unchecked-into_wav_chunk h ext s.header s.some_bits (λ _. none_there) s.plain
    | inr same_there ↦ rw same_there (from_canonical h s.header s.some_bits)
  ]
  | inr e ↦
      from_fmt_chunk_unchecked-into_wav_chunk h ext s.header s.some_bits (λ t. absurd (cc)) s.plain
]

pub written_extension-IsStored :
    (h : WavHeader) (ext : List ℕ)
    → IsStored h ext
    → written_extension h ext ≡ stored_extension h ext
unfolding written_extension
written_extension-IsStored h [] s = refl
written_extension-IsStored h (x ∷ xs) s = elim (Bool-cases (needs_extensible h (x ∷ xs))) [
  | inl e ↦ elim (s.own e) [ inl none_there ↦ absurd (cc) | inr same_there ↦ rw e same_there ]
  | inr e ↦ rw e refl
]
