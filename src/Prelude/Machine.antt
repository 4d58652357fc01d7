-- ===== src/Prelude/Machine.antt =====
-- Rust's signed machine integers as integers with bounds, and their Euclidean division.
use rs.Prelude.{
  ℕ, ◌+◌, ◌-◌, ◌/◌, ◌%◌, ◌^◌, ◌<◌, ◌≡◌, Bool, Option, none, some, arith, ltb, leb, if◌then◌else◌,
}
use rs.Prelude.Int.{ℤ, pos, negsuc, pos_part, neg_part}

-- The range of a signed integer of `w + 1` bits.
unfoldable pub fits : ℕ → ℤ → Bool
fits w (pos n) = ltb n (2 ^ w)
fits w (negsuc n) = ltb n (2 ^ w)

abbrev pub IsSigned : ℕ → ℤ → Type 0
IsSigned w (pos n) = n < 2 ^ w
IsSigned w (negsuc n) = n < 2 ^ w

-- `i64::try_from`, `checked_add` and the like, on the exact result.
unfoldable pub checked : ℕ → ℤ → Option ℤ
unfolding fits
checked w z = if fits w z then some z else none

-- `saturating_add`, `saturating_mul`, on the exact result.
unfoldable pub saturated : ℕ → ℤ → ℤ
saturated w (pos n) = if ltb n (2 ^ w) then pos n else pos (2 ^ w - 1)
saturated w (negsuc n) = if ltb n (2 ^ w) then negsuc n else negsuc (2 ^ w - 1)

-- `div_euclid` and `rem_euclid` by a positive number.
unfoldable pub div_euclid : ℤ → ℕ → ℤ
div_euclid (pos n) d = pos (n / d)
div_euclid (negsuc n) d = negsuc (n / d)

unfoldable pub rem_euclid : ℤ → ℕ → ℕ
rem_euclid (pos n) d = n % d
rem_euclid (negsuc n) d = d - 1 - n % d

-- `as u64`: the two's complement.
unfoldable pub as_u64 : ℤ → ℕ
as_u64 (pos n) = n % 2 ^ 64
as_u64 (negsuc n) = 2 ^ 64 - 1 - n % 2 ^ 64

-- `abs`, on the exact difference.
unfoldable pub distance : ℤ → ℤ → ℕ
distance a b =
    let x = pos_part a + neg_part b in
    let y = pos_part b + neg_part a in if leb x y then y - x else x - y

pub checked-some : (w : ℕ) (z : ℤ) → IsSigned w z → checked w z ≡ some z
unfolding checked
checked-some w (pos n) h = ground arith
checked-some w (negsuc n) h = ground arith

pub checked-IsSigned : (w : ℕ) (z y : ℤ) → checked w z ≡ some y → (y ≡ z) × IsSigned w z
unfolding checked
checked-IsSigned w (pos n) y h = ground arith
checked-IsSigned w (negsuc n) y h = ground arith

pub checked-none : (w : ℕ) (z : ℤ) → checked w z ≡ none → ¬ IsSigned w z
unfolding checked
checked-none w (pos n) h = ground arith
checked-none w (negsuc n) h = ground arith
