-- ===== src/Prelude/Text.antt =====
-- Rust's texts as lists of code points, byte arrays, and the functions of `str` and `FromStr` that
-- the program uses.
use Prim.Native.Char.{code}
use Prim.Native.String.{String}
use rs.Prelude.{
  ℕ, zero, suc, ◌+◌, ◌-◌, ◌*◌, ◌^◌, ◌≡◌, refl, Bool, true, false, ◌&&◌, ◌||◌, List, [], ◌∷◌, Option,
  none, some, arith, ltb, leb, ◌==◌, if◌then◌else◌,
}
use rs.Prelude.Int.{ℤ, pos, negsuc}
use rs.Prelude.Machine.{checked}

abbrev pub codes : String → List ℕ
codes String.[] = []
codes (String.◌∷◌ c s) = code c ∷ codes s

-- `==` on texts, byte arrays and slices.
unfoldable pub same : List ℕ → List ℕ → Bool
same [] [] = true
same [] (y ∷ ys) = false
same (x ∷ xs) [] = false
same (x ∷ xs) (y ∷ ys) = x == y && same xs ys

pub same_refl : (xs : List ℕ) → same xs xs ≡ true
unfolding same
same_refl [] = refl
same_refl (x ∷ xs) = ground (arith, same_refl xs)

pub same-eq : (xs ys : List ℕ) → same xs ys ≡ true → xs ≡ ys
unfolding same
same-eq [] [] h = refl
same-eq [] (y ∷ ys) h = absurd (cc)
same-eq (x ∷ xs) [] h = absurd (cc)
same-eq (x ∷ xs) (y ∷ ys) h = ground (arith, same-eq xs ys)

-- `char::is_whitespace`
unfoldable pub is_whitespace : ℕ → Bool
is_whitespace c =
    leb 9 c && leb c 13
    || c == 32
    || c == 0x85
    || c == 0xA0
    || c == 0x1680
    || leb 0x2000 c && leb c 0x200A
    || c == 0x2028
    || c == 0x2029
    || c == 0x202F
    || c == 0x205F
    || c == 0x3000

abbrev pub is_empty : List ℕ → Bool
is_empty [] = true
is_empty (c ∷ cs) = false

unfoldable pub starts_with : List ℕ → List ℕ → Bool
starts_with s [] = true
starts_with [] (p ∷ ps) = false
starts_with (c ∷ cs) (p ∷ ps) = c == p && starts_with cs ps

unfoldable pub contains : List ℕ → List ℕ → Bool
contains [] p = starts_with [] p
contains (c ∷ cs) p = let rest = contains cs p in starts_with (c ∷ cs) p || rest

unfoldable pub trim_start : List ℕ → List ℕ
trim_start [] = []
trim_start (c ∷ cs) = let rest = trim_start cs in if is_whitespace c then rest else c ∷ cs

unfoldable pub trim_end : List ℕ → List ℕ
trim_end [] = []
trim_end (c ∷ cs) =
    let rest = trim_end cs in if is_whitespace c && is_empty rest then [] else c ∷ rest

unfoldable pub trim : List ℕ → List ℕ
unfolding trim_start trim_end
trim s = trim_end (trim_start s)

-- A character at the front of the first of some pieces.
unfoldable pub extend_first : ℕ → List (List ℕ) → List (List ℕ)
extend_first c [] = (c ∷ []) ∷ []
extend_first c (l ∷ ls) = (c ∷ l) ∷ ls

abbrev pub at_newline : List ℕ → Bool
at_newline [] = false
at_newline (c ∷ cs) = c == 10

-- `lines`: a line ends at a newline, with one carriage return before it.
unfoldable pub lines : List ℕ → List (List ℕ)
lines [] = []
lines (c ∷ cs) =
    let rest = lines cs in
    if c == 10 then [] ∷ rest else if c == 13 && at_newline cs then rest else extend_first c rest

unfoldable pub at_break : List ℕ → Bool
at_break [] = true
at_break (c ∷ cs) = is_whitespace c

unfoldable pub split_whitespace : List ℕ → List (List ℕ)
split_whitespace [] = []
split_whitespace (c ∷ cs) =
    let rest = split_whitespace cs in
    if is_whitespace c then rest else if at_break cs then (c ∷ []) ∷ rest else extend_first c rest

unfoldable pub last {ℓ} : {A : Type ℓ} → List A → Option A
last [] = none
last (x ∷ []) = some x
last (x ∷ y ∷ ys) = last (y ∷ ys)

unfoldable pub split_once_whitespace : List ℕ → Option (List ℕ × List ℕ)
split_once_whitespace [] = none
split_once_whitespace (c ∷ cs) =
    let rest = split_once_whitespace cs in
    if is_whitespace c
    then some ([], cs)
    else elim rest [ none ↦ none | some (key, value) ↦ some (c ∷ key, value) ]

-- `str::parse` of an unsigned number of `w` bits, and of a signed one of `w + 1` bits.
unfoldable pub digits_from : ℕ → List ℕ → Option ℕ
digits_from n [] = some n
digits_from n (c ∷ cs) =
    if leb b'0' c && leb c b'9' then digits_from (n * 10 + (c - b'0')) cs else none

unfoldable pub digits : List ℕ → Option ℕ
digits [] = none
digits (c ∷ cs) = digits_from 0 (c ∷ cs)

abbrev unsigned_in : ℕ → Option ℕ → Option ℕ
unsigned_in w none = none
unsigned_in w (some n) = if ltb n (2 ^ w) then some n else none

unfoldable pub parse_unsigned : ℕ → List ℕ → Option ℕ
parse_unsigned w [] = none
parse_unsigned w (c ∷ cs) = unsigned_in w (if c == b'+' then digits cs else digits (c ∷ cs))

abbrev pub negated : ℕ → ℤ
negated zero = pos 0
negated (suc n) = negsuc n

abbrev signed_in : ℕ → (ℕ → ℤ) → Option ℕ → Option ℤ
signed_in w f none = none
signed_in w f (some n) = checked w (f n)

unfoldable pub parse_signed : ℕ → List ℕ → Option ℤ
parse_signed w [] = none
parse_signed w (c ∷ cs) =
    if c == b'-'
    then signed_in w negated (digits cs)
    else if c == b'+'
    then signed_in w pos (digits cs)
    else signed_in w pos (digits (c ∷ cs))
