-- ===== src/Tests/Memory.antt =====
-- Readers and writers of bits as lists of bits: an instance of what the program uses of
-- `bitstream_io`, for the examples.
use rs.Prelude.{
  ◌/◌, ◌%◌, ◌^◌, ◌-◌, ◌≤◌, ◌<◌, leb, ltb, if◌then◌else◌, true, false, lt→ltb, replicate, append-nil,
  refl, ◌∙◌, sym, ap, Option-cases, inl, inr, ℕ, zero, suc, ◌+◌, ◌*◌, ◌≡◌, Bool, List, [], ◌∷◌,
  ◌++◌, Option, none, some, length, All, arith, append_assoc,
}
use rs.Io.{Outcome, ok, err, IoError, unexpected_eof, invalid_input, write_zero, IsByte}
use rs.Io.Bits.{to_bits, bytes_bits, take_bits, take_bits-to_bits, length-bytes_bits}
use native.Mathlib.Nat.{le_refl}
use mathlib.Core.Path.{subst}
use rs.Io.Bytes.{bytes_bits-cons}
use rs.Io.Stream.{BitReader, BitWriter, Consumes, Produces}

pub short_none : (n : ℕ) (l : List Bool) → length l < n → take_bits n l ≡ none
unfolding take_bits
short_none zero l h = absurd (omega arith)
short_none (suc n) [] h = refl
short_none (suc n) (b ∷ l) h = rw (short_none n l (omega arith)) refl

pub take_bytes : ℕ → List Bool → Option (List ℕ × List Bool)
take_bytes zero l = some ([], l)
take_bytes (suc n) l = elim (take_bits 8 l) [
  | none ↦ none
  | some (v, l') ↦ elim (take_bytes n l') [ none ↦ none | some (vs, l'') ↦ some (v ∷ vs, l'') ]
]

pub take_bytes_step :
    (n : ℕ) (l : List Bool) {l' l'' : List Bool} {v : ℕ} {vs : List ℕ}
    → take_bits 8 l ≡ some (v, l')
    → take_bytes n l' ≡ some (vs, l'')
    → take_bytes (suc n) l ≡ some (v ∷ vs, l'')
unfolding take_bytes
take_bytes_step n l e e' = rw (e, take_bytes) (rw e' refl)

pub take_no_bytes : (rest : List Bool) → take_bytes 0 (bytes_bits [] ++ rest) ≡ some ([], rest)
unfolding take_bytes bytes_bits
take_no_bytes rest = refl

pub take_bytes-bytes_bits :
    (bs : List ℕ) (rest : List Bool)
    → All IsByte bs
    → take_bytes (length bs) (bytes_bits bs ++ rest) ≡ some (bs, rest)
take_bytes-bytes_bits [] rest h = take_no_bytes rest
take_bytes-bytes_bits (b ∷ bs) rest h = rw (bytes_bits-cons b bs) (
    rw (append_assoc (to_bits 8 b) (bytes_bits bs) rest) (
      take_bytes_step (length bs) (to_bits 8 b ++ (bytes_bits bs ++ rest))
        (take_bits-to_bits 8 b (bytes_bits bs ++ rest) h.0) (take_bytes-bytes_bits bs rest h.1)))

pub take_bits-length :
    (n : ℕ) (l : List Bool) (v : ℕ) (l' : List Bool)
    → take_bits n l ≡ some (v, l')
    → length l ≡ n + length l'
unfolding take_bits
take_bits-length zero l v l' h = ground arith
take_bits-length (suc n) [] v l' h = cc
take_bits-length (suc n) (b ∷ l) v l' h = elim (Option-cases (take_bits n l)) [
  | inl e ↦ cc e
  | inr ((u, k), e) ↦ ground (arith, take_bits-length n l u k e)
]

pub short_bytes : (n : ℕ) (l : List Bool) → length l < 8 * n → take_bytes n l ≡ none
unfolding take_bytes
short_bytes zero l h = absurd (omega arith)
short_bytes (suc n) l h = elim (Option-cases (take_bits 8 l)) [
  | inl e ↦ rw (e, take_bytes) refl
  | inr ((v, l'), e) ↦
      rw (e, take_bytes) (rw (short_bytes n l' (omega (arith, take_bits-length 8 l v l' e))) refl)
]

pub from_option : {A : Type 0} → Option (A × List Bool) → Outcome IoError (A × List Bool)
from_option none = err unexpected_eof
from_option (some p) = ok p

pub bit_head : List Bool → Option (Bool × List Bool)
bit_head [] = none
bit_head (b ∷ l) = some (b, l)

-- What a parser of lists of bits owes, and the laws of a reader that follow from it.
pub parses :
    {A : Type 0} (p : List Bool → Option (A × List Bool)) (bits : List Bool) (a : A)
    → ((rest : List Bool) → p (bits ++ rest) ≡ some (a, rest))
    → (rest : List Bool) → Consumes (λ l. l) (λ l. from_option (p l)) bits a rest
unfolding from_option
parses p bits a h rest l e = (rest, rw (e, h rest) refl, refl)

pub parses_bit : (b : Bool) (rest : List Bool) → bit_head ((b ∷ []) ++ rest) ≡ some (b, rest)
unfolding bit_head
parses_bit b rest = refl

pub short_bit : (l : List Bool) → length l < 1 → bit_head l ≡ none
unfolding bit_head
short_bit [] h = refl
short_bit (b ∷ l) h = absurd (omega arith)

instance unfoldable pub list_reader : BitReader
unfolding from_option bit_head take_bytes parses_bit take_bytes-bytes_bits short_none short_bit
    short_bytes
list_reader = record {
  Reader = List Bool;
  remaining = λ l. l;
  endian = bytes_bits;
  read = λ n l. from_option (take_bits n l);
  read_bit = λ l. from_option (bit_head l);
  read_to = λ n l. from_option (take_bits n l);
  read_array = λ n l. from_option (take_bytes n l);
  read_bytes = λ n l. from_option (take_bytes n l);
  remaining-endian = λ bs h. refl;
  read_consumes =
      λ n v rest h. parses (take_bits n) (to_bits n v) v (λ t. take_bits-to_bits n v t h) rest;
  read_bit_consumes = λ b rest. parses bit_head (b ∷ []) b (parses_bit b) rest;
  read_to_consumes =
      λ n v rest h. parses (take_bits n) (to_bits n v) v (λ t. take_bits-to_bits n v t h) rest;
  read_array_consumes = λ bs rest h.
      parses (take_bytes (length bs)) (bytes_bits bs) bs (λ t. take_bytes-bytes_bits bs t h) rest;
  read_bytes_consumes = λ bs rest h.
      parses (take_bytes (length bs)) (bytes_bits bs) bs (λ t. take_bytes-bytes_bits bs t h) rest;
  read_eof = λ n l h. ap from_option (short_none n l h);
  read_bit_eof = λ l h. ap from_option (short_bit l h);
  read_to_eof = λ n l h. ap from_option (short_none n l h);
  read_array_eof = λ n l h. ap from_option (short_bytes n l h);
  read_bytes_eof = λ n l h. ap from_option (short_bytes n l h);
}

-- A writer is what it has written, and the bits that its buffer still takes (`none`: any number).
pub record BitBuffer : Type 0 where
  pub bits : List Bool
  pub room : Option ℕ

pub room_left : Option ℕ → ℕ → Bool
room_left none n = true
room_left (some k) n = leb n k

pub use_room : Option ℕ → ℕ → Option ℕ
use_room none n = none
use_room (some k) n = some (k - n)

abbrev pub RoomFor : Option ℕ → ℕ → Type 0
RoomFor none n = Unit {0}
RoomFor (some k) n = n ≤ k

pub append_bits : List Bool → BitBuffer → Outcome IoError (Unit {0} × BitBuffer)
append_bits l w =
    if room_left w.room (length l)
    then ok (tt, record { bits = w.bits ++ l; room = use_room w.room (length l) })
    else err write_zero

room_step :
    (room : Option ℕ) (n k : ℕ)
    → RoomFor room (n + k)
    → (room_left room n ≡ true) × RoomFor (use_room room n) k
unfolding room_left use_room
room_step none n k h = (refl, tt)
room_step (some m) n k h = (ground arith, omega arith)

pub append_bits-Produces :
    (l : List Bool) → Produces (λ w. w.bits) (λ w n. RoomFor w.room n) (append_bits l) l
unfolding append_bits
append_bits-Produces l k w h =
    let (fits, left) = room_step w.room (length l) k h in
    (record { bits = w.bits ++ l; room = use_room w.room (length l) }, rw fits refl, refl, left)

pub write_value : ℕ → ℕ → BitBuffer → Outcome IoError (Unit {0} × BitBuffer)
write_value n v w = if ltb v (2 ^ n) then append_bits (to_bits n v) w else err invalid_input

pub write_value-Produces :
    (n v : ℕ)
    → v < 2 ^ n
    → Produces (λ w. w.bits) (λ w n. RoomFor w.room n) (write_value n v) (to_bits n v)
unfolding write_value
write_value-Produces n v h k w room =
    rw (lt→ltb _ _ h) (append_bits-Produces (to_bits n v) k w room)

pub write_value_too_wide :
    (n v : ℕ) (w : BitBuffer) → 2 ^ n ≤ v → write_value n v w ≡ err invalid_input
unfolding write_value
write_value_too_wide n v w h = rw (ltb-of_le v (2 ^ n) h) refl
  where
    ltb-of_le : (a b : ℕ) → b ≤ a → ltb a b ≡ false
    ltb-of_le a b p = ground arith

pub whole_bytes : List Bool → List ℕ
whole_bytes l = elim (take_bytes (length l / 8) l) [ none ↦ [] | some (bs, _) ↦ bs ]

pub whole_bytes-bytes_bits :
    (l : List Bool) (bs : List ℕ) → All IsByte bs → l ≡ bytes_bits bs → whole_bytes l ≡ bs
unfolding whole_bytes
whole_bytes-bytes_bits l bs h e =
    let count : length l / 8 ≡ length bs = omega (arith, ap length e, length-bytes_bits bs) in
    let whole : take_bytes (length bs) l ≡ some (bs, []) =
      ap (take_bytes (length bs)) (e ∙ sym (append-nil (bytes_bits bs)))
      ∙ take_bytes-bytes_bits bs [] h in
    rw (count, whole_bytes) (rw whole refl)

length-replicate : (n : ℕ) → length (replicate {A = Bool} n false) ≡ n
length-replicate zero = refl
length-replicate (suc n) = ap suc (length-replicate n)

pub align_produces :
    (w : BitBuffer) (k : ℕ)
    → let gap = (8 - length w.bits % 8) % 8 in
      RoomFor w.room (gap + k)
      → (w' : BitBuffer) × (append_bits (replicate gap false) w ≡ ok (tt, w'))
        × (w'.bits ≡ w.bits ++ replicate gap false)
        × RoomFor w'.room k
align_produces w k h =
    let gap = (8 - length w.bits % 8) % 8 in
    append_bits-Produces (replicate gap false) k w
      (subst (λ n. RoomFor w.room (n + k)) (sym (length-replicate gap)) h)

instance unfoldable pub list_writer : BitWriter
unfolding append_bits write_value room_left use_room whole_bytes take_bytes bytes_bits to_bits
list_writer = record {
  Writer = BitBuffer;
  written = λ w. w.bits;
  HasRoom = λ w n. RoomFor w.room n;
  endian_vec = λ bs. record { bits = bytes_bits bs; room = none };
  endian_array = λ n. record { bits = []; room = some (8 * n) };
  buffer = λ w. whole_bytes w.bits;
  write = write_value;
  write_bit = λ b. append_bits (b ∷ []);
  write_from = write_value;
  write_array = λ bs. append_bits (bytes_bits bs);
  write_bytes = λ bs. append_bits (bytes_bits bs);
  byte_align = λ w. append_bits (replicate ((8 - length w.bits % 8) % 8) false) w;
  written-vec = λ bs h. refl;
  room_vec = λ bs n. tt;
  written-array = λ n. refl;
  room_array = λ n. le_refl (8 * n);
  buffer_lem = λ w bs h e. whole_bytes-bytes_bits w.bits bs h e;
  write_produces = write_value-Produces;
  write_too_wide = write_value_too_wide;
  write_bit_produces = λ b. append_bits-Produces (b ∷ []);
  write_from_produces = write_value-Produces;
  write_array_produces = λ bs h. append_bits-Produces (bytes_bits bs);
  write_bytes_produces = λ bs h. append_bits-Produces (bytes_bits bs);
  byte_align_produces = align_produces;
}
