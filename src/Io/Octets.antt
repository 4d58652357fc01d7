-- ===== src/Io/Octets.antt =====
-- `std::io::Read` and `std::io::Write` where the program reads and writes whole bytes, and the
-- little-endian numbers of RIFF.
use rs.Prelude.{
  ℕ, zero, suc, ◌+◌, ◌-◌, ◌*◌, ◌/◌, ◌%◌, ◌^◌, ◌<◌, ◌≡◌, ◌≢◌, refl, ap, true, List, [], ◌∷◌, ◌++◌,
  Option, none, some, arith, ltb, if◌then◌else◌, length, length-append, append_assoc, Bool-cases,
  inl, inr, false,
}
use rs.Io.{Outcome, ok, err, panic, IoError, write_zero, M, ◌>>◌}

-- A reader: the bytes it still delivers, and the error that it then gives, `unexpected_eof` where
-- the stream just ends.
pub record Source : Type 0 where
  pub bytes : List ℕ
  pub ending : IoError

unfoldable pub take_octets : ℕ → List ℕ → Option (List ℕ × List ℕ)
take_octets zero xs = some ([], xs)
take_octets (suc n) [] = none
take_octets (suc n) (x ∷ xs) = elim (take_octets n xs) [
  | none ↦ none
  | some (front, rest) ↦ some (x ∷ front, rest)
]

-- `read_exact` into a buffer of `n` bytes.
unfoldable pub read_exact : ℕ → M Source IoError (List ℕ)
read_exact n s = elim (take_octets n s.bytes) [
  | none ↦ err s.ending
  | some (front, rest) ↦ ok (front, record s { bytes = rest })
]

-- A writer: what it holds, and how many bytes more it takes, `none` for a `Vec`.
pub record Sink : Type 0 where
  pub written : List ℕ
  pub room : Option ℕ

abbrev pub vec : Sink
vec = record { written = []; room = none }

unfoldable pub write_all : List ℕ → M Sink IoError (Unit {0})
write_all bs s = elim (s.room) [
  | none ↦ ok (tt, record s { written = s.written ++ bs })
  | some n ↦
      if ltb n (length bs)
      then err write_zero
      else ok (tt, record { written = s.written ++ bs; room = some (n - length bs) })
]

-- `to_le_bytes` and `from_le_bytes` of a u16 and of a u32.
unfoldable pub le16 : ℕ → List ℕ
le16 v = v % 256 ∷ v / 256 ∷ []

unfoldable pub le32 : ℕ → List ℕ
le32 v = v % 256 ∷ v / 2 ^ 8 % 256 ∷ v / 2 ^ 16 % 256 ∷ v / 2 ^ 24 ∷ []

unfoldable pub from_le16 : ℕ → ℕ → ℕ
from_le16 a b = a + 256 * b

unfoldable pub from_le32 : ℕ → ℕ → ℕ → ℕ → ℕ
from_le32 a b c d = a + 256 * b + 2 ^ 16 * c + 2 ^ 24 * d

pub take_octets-append : (xs rest : List ℕ) → take_octets (length xs) (xs ++ rest) ≡ some (xs, rest)
unfolding take_octets
take_octets-append [] rest = refl
take_octets-append (x ∷ xs) rest = rw (take_octets-append xs rest) refl

pub take_octets-length :
    (n : ℕ) (xs : List ℕ) {front rest : List ℕ}
    → take_octets n xs ≡ some (front, rest)
    → (xs ≡ front ++ rest) × (length front ≡ n)
unfolding take_octets
take_octets-length zero xs e = ground arith
take_octets-length (suc n) [] e = absurd (cc)
take_octets-length (suc n) (x ∷ xs) {front} {rest} e =
    go (λ f r h. take_octets-length n xs {front = f} {rest = r} h) (take_octets n xs) refl e
  where
    go :
        ((f r : List ℕ) → take_octets n xs ≡ some (f, r) → (xs ≡ f ++ r) × (length f ≡ n))
        → (o : Option (List ℕ × List ℕ)) → take_octets n xs ≡ o
        → elim o as (λ _. Option (List ℕ × List ℕ)) [ none ↦ none | some (f, r) ↦ some (x ∷ f, r) ]
          ≡ some (front, rest)
        → (x ∷ xs ≡ front ++ rest) × (length front ≡ suc n)
    go ih none h k = absurd (cc)
    go ih (some (f, r)) h k =
        let (split, len) = ih f r h in
        let same : x ∷ f ≡ front = cc in
        let tail : r ≡ rest = cc in rw (← same, ← tail) (ap (λ l. x ∷ l) split, ap suc len)

pub read_exact-append :
    (xs rest : List ℕ) (ending : IoError)
    → read_exact (length xs) (record { bytes = xs ++ rest; ending = ending })
      ≡ ok (xs, record { bytes = rest; ending = ending })
unfolding read_exact
read_exact-append xs rest ending = rw (take_octets-append xs rest, read_exact) refl

-- A read that succeeds takes exactly so many bytes off the front.
pub read_exact-ok :
    (n : ℕ) (s : Source) {xs : List ℕ} {s' : Source}
    → read_exact n s ≡ ok (xs, s')
    → (s.bytes ≡ xs ++ s'.bytes) × (length xs ≡ n) × (s'.ending ≡ s.ending)
unfolding read_exact
read_exact-ok n s {xs} {s'} e = go (take_octets n s.bytes) refl e
  where
    go :
        (o : Option (List ℕ × List ℕ))
        → take_octets n s.bytes ≡ o
        → elim o as (λ _. Outcome IoError (List ℕ × Source)) [
          | none ↦ err s.ending
          | some (f, r) ↦ ok (f, record s { bytes = r })
        ]
          ≡ ok (xs, s')
        → (s.bytes ≡ xs ++ s'.bytes) × (length xs ≡ n) × (s'.ending ≡ s.ending)
    go none h k = absurd (cc)
    go (some (f, r)) h k =
        let (split, len) = take_octets-length n s.bytes h in
        let same : f ≡ xs = cc in
        let next : record s { bytes = r } ≡ s' = cc in rw (← same, ← next) (split, len, refl)

pub read_exact_total : (n : ℕ) (s : Source) → read_exact n s ≢ panic
unfolding read_exact
read_exact_total n s = go (take_octets n s.bytes)
  where
    go :
        (o : Option (List ℕ × List ℕ))
        → elim o as (λ _. Outcome IoError (List ℕ × Source)) [
          | none ↦ err s.ending
          | some (f, r) ↦ ok (f, record s { bytes = r })
        ]
          ≢ panic
    go none = λ k. cc
    go (some (f, r)) = λ k. cc

-- Writes one after the other are one write of all the bytes.
pub write_all-append :
    (xs ys : List ℕ) (s : Sink) → (write_all xs >> write_all ys) s ≡ write_all (xs ++ ys) s
unfolding write_all
write_all-append xs ys s = go s.written s.room
  where
    go :
        (w : List ℕ) (r : Option ℕ)
        → (write_all xs >> write_all ys) (record { written = w; room = r })
          ≡ write_all (xs ++ ys) (record { written = w; room = r })
    go w none = rw (append_assoc w xs ys) refl
    go w (some n) =
        let whole : length (xs ++ ys) ≡ length xs + length ys = length-append xs ys in
        elim (Bool-cases (ltb n (length xs))) [
          | inl a ↦ let c : ltb n (length (xs ++ ys)) ≡ true = ground arith in rw (a, c, ◌>>◌) refl
          | inr a ↦ elim (Bool-cases (ltb (n - length xs) (length ys))) [
            | inl b ↦
                let c : ltb n (length (xs ++ ys)) ≡ true = ground arith in rw (a, ◌>>◌, b, c) refl
            | inr b ↦
                let c : ltb n (length (xs ++ ys)) ≡ false = ground arith in
                let left : n - length xs - length ys ≡ n - length (xs ++ ys) = ground arith in
                rw (a, ◌>>◌, b, c, left, append_assoc w xs ys) refl
          ]
        ]

pub from_le16-le16 : (v : ℕ) → v < 2 ^ 16 → from_le16 (v % 256) (v / 256) ≡ v
unfolding from_le16
from_le16-le16 v h = omega arith

pub from_le32-le32 :
    (v : ℕ) → v < 2 ^ 32 → from_le32 (v % 256) (v / 2 ^ 8 % 256) (v / 2 ^ 16 % 256) (v / 2 ^ 24) ≡ v
unfolding from_le32
from_le32-le32 v h = omega arith
