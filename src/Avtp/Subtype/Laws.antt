-- ===== src/Avtp/Subtype/Laws.antt =====
-- What holds of the subtype byte (src/avtp/subtype.rs).
use rs.Prelude.{ℕ, ◌<◌, ◌≡◌, ◌↔◌, ◌⊎◌, inl, inr, ◌≢◌, refl, ap, arith}
use rs.Io.{io, unexpected_eof, Outcome, ok, err, panic, IsByte, specific, map_err}
use rs.Io.Bits.{to_bits}
use rs.Io.Stream.{BitReader, BitWriter}
use rs.Io.Run.{
  Reads, Reads-lift, Reads-then, Reads-hoist, NoPanic-hoist, Writes, NoPanic, NoPanic-bind,
  NoPanic-lift,
}
use rs.Io.Steps.{Reads-read_to, Writes-write_from}
use rs.Io.Total.{read_to_total}
use rs.Avtp.Subtype.{
  Subtype, UnknownSubtype, unknown_subtype, stream, control, continuous, discrete, to_u8, try_from,
  header_type, encapsulation_style, encode, decode,
}

pub to_u8-IsByte : (s : Subtype) → IsByte (to_u8 s)
unfolding to_u8
to_u8-IsByte Subtype.aaf = omega arith
to_u8-IsByte _ = omega arith

-- A subtype is read back from its own byte.
pub try_from-to_u8 : (s : Subtype) → try_from (to_u8 s) ≡ ok s
unfolding to_u8 try_from
try_from-to_u8 Subtype.aaf = refl
try_from-to_u8 _ = refl

to_u8-try_from : (raw : ℕ) (s : Subtype) → try_from raw ≡ ok s → to_u8 s ≡ raw
unfolding to_u8 try_from
to_u8-try_from raw s h = ground arith

try_from_error : (raw : ℕ) (x : UnknownSubtype) → try_from raw ≡ err x → x ≡ unknown_subtype raw
unfolding try_from
try_from_error raw x h = ground arith

pub try_from-ne-panic : (raw : ℕ) → try_from raw ≢ panic
unfolding try_from
try_from-ne-panic raw h = ground arith

-- A byte is accepted as a subtype exactly when it is that subtype's byte, and is named by the
-- error otherwise.
pub try_from_cases :
    (raw : ℕ)
    → ((s : Subtype) × (try_from raw ≡ ok s) × (to_u8 s ≡ raw))
      ⊎ ((try_from raw ≡ err (unknown_subtype raw)) × ((s : Subtype) → to_u8 s ≢ raw))
try_from_cases raw = go (try_from raw) refl
  where
    go :
        (o : Outcome UnknownSubtype Subtype)
        → try_from raw ≡ o
        → ((s : Subtype) × (try_from raw ≡ ok s) × (to_u8 s ≡ raw))
          ⊎ ((try_from raw ≡ err (unknown_subtype raw)) × ((s : Subtype) → to_u8 s ≢ raw))
    go (ok s) e = inl (s, e, to_u8-try_from raw s e)
    go (err x) e =
        inr (rw (try_from_error raw x e) at e, λ s h. cc (try_from-to_u8 s, ap try_from h))
    go panic e = absurd (try_from-ne-panic raw e)

-- The subtypes that travel as a continuous stream are those whose byte has the top bit clear; each
-- that has the stream header is continuous, and each that has the control header is discrete.
pub style_by_top_bit :
    (s : Subtype)
    → ((encapsulation_style s ≡ continuous) ↔ (to_u8 s < 0x80))
      × (header_type s ≡ stream → encapsulation_style s ≡ continuous)
      × (header_type s ≡ control → encapsulation_style s ≡ discrete)
unfolding to_u8 header_type encapsulation_style
style_by_top_bit Subtype.aaf = ground arith
style_by_top_bit _ = ground arith

specific-ne-panic : {E A : Type 0} (o : Outcome E A) → o ≢ panic → map_err specific o ≢ panic
specific-ne-panic (ok a) h = λ e. cc
specific-ne-panic (err x) h = λ e. cc
specific-ne-panic panic h = absurd (h refl)

module _ ⦃r : BitReader⦄ where
  pub decode-layout : (s : Subtype) → Reads (io unexpected_eof) decode (to_bits 8 (to_u8 s)) s
  unfolding decode
  decode-layout s =
      Reads-then _ (Reads-lift _ (Reads-read_to 8 (to_u8 s) (to_u8-IsByte s)))
        (Reads-hoist _ (ap (map_err specific) (try_from-to_u8 s)))

  pub decode_total : NoPanic decode
  unfolding decode
  decode_total =
      NoPanic-bind _ (NoPanic-lift _ (read_to_total 8))
        (λ raw. NoPanic-hoist _ (specific-ne-panic (try_from raw) (try_from-ne-panic raw)))

module _ ⦃w : BitWriter⦄ where
  pub encode-layout : (s : Subtype) → Writes (encode s) (to_bits 8 (to_u8 s))
  unfolding encode
  encode-layout s = Writes-write_from 8 (to_u8 s) (to_u8-IsByte s)
