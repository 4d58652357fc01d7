-- ===== src/Io/Total.antt =====
-- The reader's own steps never panic: they return a value, or fail with an I/O error.
use rs.Prelude.{
  ◌≢◌, length-append, Bool, ℕ, ◌+◌, ◌*◌, ◌≤◌, ◌<◌, ◌^◌, ◌≡◌, refl, List, [], ◌∷◌, ◌++◌, length, All,
  arith, ltb, Bool-cases, inl, inr, ltb→lt, ltb→le, zero, suc, ◌∙◌, ap, sym, append_assoc,
}
use rs.Io.{panic, err, M, IsByte, IoError, unexpected_eof}
use rs.Io.Bits.{to_bits, bytes_bits, split_bits, length-to_bits}
use rs.Io.Stream.{BitReader, Consumes}
use rs.Io.Run.{NoPanic}

-- Any bits, if there are enough, are those of some bytes.
split_bytes :
    (n : ℕ) (l : List _)
    → 8 * n ≤ length l
    → (bs : List ℕ) × (rest : List _) × All IsByte bs
      × (length bs ≡ n)
      × (l ≡ bytes_bits bs ++ rest)
unfolding bytes_bits
split_bytes zero l h = ([], l, tt, refl, refl)
split_bytes (suc n) l h =
    let (v, l', lt, e) = split_bits 8 l (omega arith) in
    let (bs, rest, all, len, e') =
      split_bytes n l' (omega (arith, ap length e, length-split v l')) in
    (
      v ∷ bs,
      rest,
      (lt, all),
      ap suc len,
      e ∙ ap (λ t. to_bits 8 v ++ t) e' ∙ sym (append_assoc (to_bits 8 v) (bytes_bits bs) rest),
    )
  where
    length-split : (v : ℕ) (l' : List _) → length (to_bits 8 v ++ l') ≡ 8 + length l'
    length-split v l' = rw (length-append (to_bits 8 v) l', length-to_bits 8 v)

module _ ⦃b : BitReader⦄ where
  open b use {Reader, remaining}

  -- A step that reads any `n` bits, and fails with an error where fewer are left.
  total_bits :
      {A : Type 0} (m : M Reader IoError A) (n : ℕ) (value : ℕ → A)
      → ((v : ℕ) (rest : List Bool) → v < 2 ^ n → Consumes remaining m (to_bits n v) (value v) rest)
      → ((r : Reader) → length (remaining r) < n → m r ≡ err unexpected_eof)
      → (r : Reader) → m r ≢ panic
  total_bits m n value reads eof r h = elim (Bool-cases (ltb (length (remaining r)) n)) [
    | inl short ↦ cc (eof r (ltb→lt _ _ short))
    | inr enough ↦
        let (v, rest, lt, e) = split_bits n (remaining r) (ltb→le _ _ enough) in
        let (r', done, _) = reads v rest lt r e in cc
  ]

  total_bytes :
      (m : M Reader IoError (List ℕ)) (n : ℕ)
      → ((bs : List ℕ) (rest : List Bool)
          → length bs ≡ n
          → All IsByte bs
          → Consumes remaining m (bytes_bits bs) bs rest)
      → ((r : Reader) → length (remaining r) < 8 * n → m r ≡ err unexpected_eof)
      → (r : Reader) → m r ≢ panic
  total_bytes m n reads eof r h = elim (Bool-cases (ltb (length (remaining r)) (8 * n))) [
    | inl short ↦ cc (eof r (ltb→lt _ _ short))
    | inr enough ↦
        let (bs, rest, all, len, e) = split_bytes n (remaining r) (ltb→le _ _ enough) in
        let (r', done, _) = reads bs rest len all r e in cc
  ]

  pub read_total : (n : ℕ) → NoPanic (b.read n)
  read_total n = record {
    run = total_bits (b.read n) n (λ v. v) (b.read_consumes n) (b.read_eof n);
  }

  pub read_to_total : (n : ℕ) → NoPanic (b.read_to n)
  read_to_total n = record {
    run = total_bits (b.read_to n) n (λ v. v) (b.read_to_consumes n) (b.read_to_eof n);
  }

  pub read_array_total : (n : ℕ) → NoPanic (b.read_array n)
  read_array_total n = record {
    run =
        total_bytes (b.read_array n) n (λ bs rest len. rw (← len) (b.read_array_consumes bs rest))
          (b.read_array_eof n);
  }

  pub read_bytes_total : (n : ℕ) → NoPanic (b.read_bytes n)
  read_bytes_total n = record {
    run =
        total_bytes (b.read_bytes n) n (λ bs rest len. rw (← len) (b.read_bytes_consumes bs rest))
          (b.read_bytes_eof n);
  }

  pub read_bit_total : NoPanic b.read_bit
  read_bit_total = record { run = λ r h. go r h (remaining r) refl }
    where
      go : (r : Reader) → b.read_bit r ≡ panic → (l : List Bool) → remaining r ≡ l → ⊥
      go r h [] e = cc (b.read_bit_eof r (omega (arith, ap length e)))
      go r h (x ∷ rest) e = let (r', done, _) = b.read_bit_consumes x rest r e in cc
