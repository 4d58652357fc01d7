-- ===== src/Io/Fixed.antt =====
-- Codecs over small arrays on the stack, whose reads and writes the source unwraps.
use rs.Prelude.{
  ℕ, ◌*◌, ◌+◌, arith, ◌≡◌, refl, ap, sym, ◌∙◌, List, [], ◌++◌, length, All, append-nil, Bool,
}
use mathlib.Core.Path.{subst}
use rs.Io.{Outcome, ok, err, panic, IoError, M, IsByte}
use rs.Io.Bits.{bytes_bits, length-bytes_bits}
use rs.Io.Stream.{BitReader, BitWriter}
use rs.Io.Run.{Reads, Writes}

module _ ⦃r : BitReader⦄ where
  -- The reads on the bytes, each unwrapped: a failure panics.
  unfoldable pub parse_array : {E A : Type 0} → M r.Reader IoError A → List ℕ → Outcome E A
  parse_array m bs = elim (m (r.endian bs)) [ ok (a, _) ↦ ok a | err _ ↦ panic | panic ↦ panic ]

  pub parse_array-Reads :
      {E A : Type 0} {eof : IoError} {m : M r.Reader IoError A} {bits : List Bool} {a : A}
      (bs : List ℕ)
      → Reads eof m bits a
      → bytes_bits bs ≡ bits
      → All IsByte bs
      → parse_array {E = E} m bs ≡ ok a
  unfolding parse_array
  parse_array-Reads {m} {bits} bs p e h =
      let (r', q, _) =
        p.run [] (r.endian bs) (r.remaining-endian bs h ∙ e ∙ sym (append-nil bits)) in
      rw (parse_array, q) refl

module _ ⦃w : BitWriter⦄ where
  -- The writes into an array of `n` zeroes, each unwrapped, and the array.
  unfoldable pub fill_array : {E : Type 0} → M w.Writer IoError (Unit {0}) → ℕ → Outcome E (List ℕ)
  fill_array m n = elim (m (w.endian_array n)) [
    | ok (_, w') ↦ ok (w.buffer w')
    | err _ ↦ panic
    | panic ↦ panic
  ]

  pub fill_array-Writes :
      {E : Type 0} {m : M w.Writer IoError (Unit {0})} {bits : List Bool} (n : ℕ) (bs : List ℕ)
      → Writes m bits
      → bits ≡ bytes_bits bs
      → length bs ≡ n
      → All IsByte bs
      → fill_array {E = E} m n ≡ ok bs
  unfolding fill_array
  fill_array-Writes {bits} n bs p e len h =
      let fits : 8 * n ≡ length bits + 0 = omega (arith, ap length e, length-bytes_bits bs, len) in
      let (w', q, wr, _) =
        p.run 0 (w.endian_array n) (subst (w.HasRoom (w.endian_array n)) fits (w.room_array n)) in
      let all : w.written w' ≡ bytes_bits bs = wr ∙ ap (λ l. l ++ bits) (w.written-array n) ∙ e in
      rw (fill_array, q) (ap ok (w.buffer_lem w' bs h all))
