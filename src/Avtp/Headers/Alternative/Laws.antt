-- ===== src/Avtp/Headers/Alternative/Laws.antt =====
-- What the encoder of alternative headers writes (src/avtp/headers/alternative.rs).
use rs.Prelude.{ℕ, ◌/◌, ◌<◌, ◌≡◌, List, [], ◌∷◌, All, some, arith, Option-cases, inl, inr}
use rs.Io.{IsByte}
use rs.Io.Stream.{BitWriter}
use rs.Io.Run.{Writes, Writes-bind}
use rs.Io.Steps.{Writes-write, Writes-write_bytes}
use rs.Avtp.Headers.Common.Laws as CommonLaws
use rs.Avtp.Headers.Alternative.{
  AlternativeHeader, IsValid, split_last, payload_layout, layout, encode_payload, encode,
}

split_last-bytes :
    (xs : List ℕ) (x : ℕ) (ys : List ℕ)
    → All IsByte xs
    → split_last xs ≡ some (x, ys)
    → (x < 256) × All IsByte ys
unfolding split_last
split_last-bytes [] a l h e = cc
split_last-bytes (x ∷ []) a l h e = ground arith
split_last-bytes (x ∷ y ∷ ys) a l (hx, hs) e = elim (Option-cases (split_last (y ∷ ys))) [
  | inl q ↦ cc q
  | inr ((z, zs), q) ↦ let (hz, hzs) = split_last-bytes (y ∷ ys) z zs hs q in ground arith
]

module _ ⦃w : BitWriter⦄ where
  payload_nonempty :
      (payload : List ℕ) (last : ℕ) (rest : List ℕ)
      → All IsByte payload
      → split_last payload ≡ some (last, rest)
      → Writes (encode_payload payload) (payload_layout payload)
  unfolding encode_payload payload_layout
  payload_nonempty payload last rest v e =
      let (hl, hr) = split_last-bytes payload last rest v e in
      rw (e, encode_payload, payload_layout)
        (Writes-bind (Writes-write_bytes rest hr) (Writes-write 4 (last / 16) (omega arith)))

  -- With a payload, the header is written as its bits, less the padding nibble.
  encode_nonempty :
      (h : AlternativeHeader) (last : ℕ) (rest : List ℕ)
      → IsValid h
      → split_last h.alternative_data_payload ≡ some (last, rest)
      → Writes (encode h) (layout h)
  unfolding encode layout
  encode_nonempty h last rest v e =
      Writes-bind (CommonLaws.encode-layout h.common v.common)
        (payload_nonempty h.alternative_data_payload last rest v.payload_bytes e)
