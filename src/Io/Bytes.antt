-- ===== src/Io/Bytes.antt =====
-- Bytes and big-endian numbers against their bits.
use rs.Prelude.{
  ℕ, zero, suc, ◌+◌, ◌-◌, ◌*◌, ◌/◌, ◌%◌, ◌^◌, ◌≤◌, ◌<◌, ◌≡◌, refl, sym, ap, ◌∙◌, Bool, true, false,
  List, [], ◌∷◌, ◌++◌, arith, leb, append_assoc, append-nil, Bool-cases, inl, inr, leb→le, leb→lt,
  le→leb, All,
}
use mathlib.Core.Path.{ap₂}
use native.Mathlib.Nat.{pow-suc, zero-add}
use rs.Io.{IsByte}
use rs.Io.Bits.{bit, to_bits, bytes_bits}

two_pow-add : (n m k : ℕ) → k ≡ n + m → 2 ^ k ≡ 2 ^ n * 2 ^ m
two_pow-add zero m k e = ap (λ t. 2 ^ t) (e ∙ zero-add m) ∙ omega arith
two_pow-add (suc n) m zero e = absurd (omega arith)
two_pow-add (suc n) m (suc k) e =
    omega
      (arith, ap (λ (t : ℕ). t * 2 ^ m) (pow-suc 2 n), pow-suc 2 k, two_pow-add n m k (omega arith))

high_bit : (a b p q : ℕ) → b < p → leb (q * p) (a * p + b) ≡ leb q a
high_bit a b p q h = elim (Bool-cases (leb q a)) [
  | inl e ↦ rw e (le→leb _ _ (let le : q ≤ a = leb→le _ _ e in grind arith))
  | inr e ↦
      rw e
        (let lt : a < q = leb→lt _ _ e in let far : a * p + b < q * p = grind arith in ground arith)
]

low_part_of_sum : (a b p q c : ℕ) → a ≡ q + c → a * p + b - q * p ≡ c * p + b
low_part_of_sum a b p q c e = rw e (omega arith)

low_part : (a b p q : ℕ) → q ≤ a → a * p + b - q * p ≡ (a - q) * p + b
low_part a b p q h = low_part_of_sum a b p q (a - q) (omega arith)

-- The bits of a number that is packed of two fields.
pub to_bits-pack :
    (n m k a b : ℕ)
    → k ≡ n + m
    → a < 2 ^ n
    → b < 2 ^ m
    → to_bits k (a * 2 ^ m + b) ≡ to_bits n a ++ to_bits m b
unfolding to_bits
to_bits-pack zero m zero a b e ha hb = ground arith
to_bits-pack zero m (suc k) a b e ha hb =
    let z : a ≡ 0 = omega arith in
    let p : suc k ≡ m = omega arith in rw (z, ← p) (ap (to_bits (suc k)) (omega arith))
to_bits-pack (suc n) m zero a b e ha hb = absurd (omega arith)
to_bits-pack (suc n) m (suc k) a b e ha hb = elim (Bool-cases (leb (2 ^ n) a)) [
  | inl h ↦
      rw (two_pow-add n m k (omega arith), high_bit a b (2 ^ m) (2 ^ n) hb, h)
        (ap (λ l. true ∷ l)
          (ap (to_bits k) (low_part a b (2 ^ m) (2 ^ n) (leb→le _ _ h))
            ∙ to_bits-pack n m k (a - 2 ^ n) b (omega arith) (omega (arith, pow-suc 2 n)) hb))
  | inr h ↦
      rw (two_pow-add n m k (omega arith), high_bit a b (2 ^ m) (2 ^ n) hb, h)
        (ap (λ l. false ∷ l) (to_bits-pack n m k a b (omega arith) (leb→lt _ _ h) hb))
]

-- `to_be_bytes` of a u16 and of a u32.
unfoldable pub be16 : ℕ → List ℕ
be16 v = v / 256 ∷ v % 256 ∷ []

unfoldable pub be32 : ℕ → List ℕ
be32 v = v / 2 ^ 24 ∷ v / 2 ^ 16 % 256 ∷ v / 2 ^ 8 % 256 ∷ v % 256 ∷ []

pub to_bits-bit : (x : Bool) → to_bits 1 (bit x) ≡ x ∷ []
unfolding to_bits
to_bits-bit true = refl
to_bits-bit false = refl

pub bytes_bits-cons : (b : ℕ) (bs : List ℕ) → bytes_bits (b ∷ bs) ≡ to_bits 8 b ++ bytes_bits bs
unfolding bytes_bits
bytes_bits-cons b bs = refl

pub bytes_bits-append : (xs ys : List ℕ) → bytes_bits (xs ++ ys) ≡ bytes_bits xs ++ bytes_bits ys
unfolding bytes_bits
bytes_bits-append [] ys = refl
bytes_bits-append (x ∷ xs) ys =
    ap (λ l. to_bits 8 x ++ l) (bytes_bits-append xs ys)
    ∙ sym (append_assoc (to_bits 8 x) (bytes_bits xs) (bytes_bits ys))

pub bytes_bits-one : (x : ℕ) → bytes_bits (x ∷ []) ≡ to_bits 8 x
unfolding bytes_bits
bytes_bits-one x = append-nil (to_bits 8 x)

-- The bits of two fields are those of the number that they make together.
pub to_bits-append :
    (n m k a b v : ℕ)
    → k ≡ n + m
    → a < 2 ^ n
    → b < 2 ^ m
    → v ≡ a * 2 ^ m + b
    → to_bits n a ++ to_bits m b ≡ to_bits k v
to_bits-append n m k a b v e ha hb ev = rw ev (sym (to_bits-pack n m k a b e ha hb))

pub bytes_bits-be16 : (v : ℕ) → v < 2 ^ 16 → bytes_bits (be16 v) ≡ to_bits 16 v
unfolding bytes_bits be16
bytes_bits-be16 v h =
    ap (λ l. to_bits 8 (v / 256) ++ l) (append-nil (to_bits 8 (v % 256)))
    ∙ to_bits-append 8 8 16 (v / 256) (v % 256) v refl (omega arith) (omega arith) (omega arith)

pub bytes_bits-be32 : (v : ℕ) → v < 2 ^ 32 → bytes_bits (be32 v) ≡ to_bits 32 v
unfolding be16 be32
bytes_bits-be32 v h =
    bytes_bits-append (v / 2 ^ 24 ∷ v / 2 ^ 16 % 256 ∷ []) (v / 2 ^ 8 % 256 ∷ v % 256 ∷ [])
    ∙ ap (λ l. l ++ bytes_bits (v / 2 ^ 8 % 256 ∷ v % 256 ∷ []))
        (half (v / 2 ^ 24) (v / 2 ^ 16 % 256) (v / 2 ^ 16) (omega arith) (omega arith)
          (omega arith))
    ∙ ap (λ l. to_bits 16 (v / 2 ^ 16) ++ l)
        (half (v / 2 ^ 8 % 256) (v % 256) (v % 2 ^ 16) (omega arith) (omega arith) (omega arith))
    ∙ to_bits-append 16 16 32 (v / 2 ^ 16) (v % 2 ^ 16) v refl (omega arith) (omega arith)
        (omega arith)
  where
    half :
        (a b u : ℕ) → a < 256 → b < 256 → u ≡ a * 256 + b → bytes_bits (a ∷ b ∷ []) ≡ to_bits 16 u
    half a b u ha hb e =
        ap bytes_bits (ap₂ (λ x y. x ∷ y ∷ []) {x = a} {y = u / 256} (omega arith) (omega arith))
        ∙ bytes_bits-be16 u (omega arith)

pub bytes-be16 : (v : ℕ) → v < 2 ^ 16 → All IsByte (be16 v)
unfolding be16
bytes-be16 v h = omega arith

pub bytes-be32 : (v : ℕ) → v < 2 ^ 32 → All IsByte (be32 v)
unfolding be32
bytes-be32 v h = omega arith

pub All-append {ℓ} : (P : ℕ → Type ℓ) (xs ys : List ℕ) → All P xs → All P ys → All P (xs ++ ys)
All-append P [] ys p q = q
All-append P (x ∷ xs) ys p q = (p.0, All-append P xs ys p.1 q)

pub All-front {ℓ} : (P : ℕ → Type ℓ) (xs ys : List ℕ) → All P (xs ++ ys) → All P xs
All-front P [] ys p = tt
All-front P (x ∷ xs) ys p = (p.0, All-front P xs ys p.1)

pub bytes_bits_nonempty :
    (x : ℕ) (xs : List ℕ) → (b : Bool) × (more : List Bool) × (bytes_bits (x ∷ xs) ≡ b ∷ more)
unfolding bytes_bits to_bits
bytes_bits_nonempty x xs = (_, _, refl)
