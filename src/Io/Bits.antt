-- ===== src/Io/Bits.antt =====
-- Numbers as bits, the most significant bit first, as `BigEndian` readers and writers see them.
use rs.Prelude.{
  ℕ, zero, suc, ◌+◌, ◌-◌, ◌*◌, ◌^◌, ◌≤◌, ◌<◌, ◌≡◌, refl, ap, Bool, true, false, List, [], ◌∷◌, ◌++◌,
  Option, none, some, arith, leb, if◌then◌else◌, length, length-append,
}
use native.Mathlib.Nat.{pow-suc}

abbrev pub bit : Bool → ℕ
bit true = 1
bit false = 0

-- The `n` bits of a number below 2 ^ n.
unfoldable pub to_bits : ℕ → ℕ → List Bool
to_bits zero v = []
to_bits (suc n) v = leb (2 ^ n) v ∷ to_bits n (if leb (2 ^ n) v then v - 2 ^ n else v)

unfoldable pub bytes_bits : List ℕ → List Bool
bytes_bits [] = []
bytes_bits (b ∷ bs) = to_bits 8 b ++ bytes_bits bs

pub length-to_bits : (n v : ℕ) → length (to_bits n v) ≡ n
unfolding to_bits
length-to_bits zero v = refl
length-to_bits (suc n) v = ap suc (length-to_bits n _)

pub length-bytes_bits : (bs : List ℕ) → length (bytes_bits bs) ≡ 8 * length bs
unfolding bytes_bits
length-bytes_bits [] = refl
length-bytes_bits (b ∷ bs) =
    omega
      (arith, length-append (to_bits 8 b) (bytes_bits bs), length-to_bits 8 b, length-bytes_bits bs)

-- The number that the first `n` bits stand for, and the bits that follow.
unfoldable pub take_bits : ℕ → List Bool → Option (ℕ × List Bool)
take_bits zero l = some (0, l)
take_bits (suc n) [] = none
take_bits (suc n) (b ∷ l) = elim (take_bits n l) [
  | none ↦ none
  | some (v, l') ↦ some (bit b * 2 ^ n + v, l')
]

two_pow-suc : (n : ℕ) → 2 ^ suc n ≡ 2 * 2 ^ n
two_pow-suc n = omega (arith, pow-suc 2 n)

pub take_bits-to_bits :
    (n v : ℕ) (rest : List Bool) → v < 2 ^ n → take_bits n (to_bits n v ++ rest) ≡ some (v, rest)
unfolding take_bits to_bits
take_bits-to_bits zero v rest h = ground arith
take_bits-to_bits (suc n) v rest h = ground (
  arith,
  two_pow-suc n,
  take_bits-to_bits n (if leb (2 ^ n) v then v - 2 ^ n else v) rest (ground (arith, two_pow-suc n)),
)

-- Any bits, if there are enough, are those of a number.
pub split_bits :
    (n : ℕ) (l : List Bool)
    → n ≤ length l
    → (v : ℕ) × (rest : List Bool) × (v < 2 ^ n) × (l ≡ to_bits n v ++ rest)
unfolding to_bits
split_bits zero l h = (0, l, omega arith, refl)
split_bits (suc n) [] h = absurd (omega arith)
split_bits (suc n) (true ∷ l) h =
    let (v, rest, lt, e) = split_bits n l (omega arith) in
    (2 ^ n + v, rest, omega (arith, two_pow-suc n), ground (arith))
split_bits (suc n) (false ∷ l) h =
    let (v, rest, lt, e) = split_bits n l (omega arith) in
    (v, rest, omega (arith, two_pow-suc n), ground (arith))
