-- ===== src/Io.antt =====
-- src/io: fallible results, the errors of the codecs, and readers and writers of bits.
-- `Outcome` is a Rust `Result`, with one more case for a panic (`unwrap`, `expect`, `todo!`).
pub mod Bits
pub mod Stream
pub mod Run
pub mod Steps
pub mod Bytes
pub mod Total
pub mod Fixed
pub mod Outcomes
pub mod Octets
pub mod Loop
pub mod System
pub mod Pieces
use rs.Prelude.{ℕ, ◌<◌, Option, none, some}

pub data Outcome (E A : Type 0) : Type 0 where
  ok : A → Outcome E A
  err : E → Outcome E A
  panic : Outcome E A

-- The kinds of `std::io::Error` that reading and writing a buffer give.
pub data IoError : Type 0 where
  unexpected_eof invalid_input write_zero : IoError

pub data IoWrapError (E : Type 0) : Type 0 where
  io : IoError → IoWrapError E
  specific : E → IoWrapError E

unfoldable pub map_specific : {E F : Type 0} → (E → F) → IoWrapError E → IoWrapError F
map_specific f (io e) = io e
map_specific f (specific e) = specific (f e)

-- `Result::map_err`, and `Result::unwrap` or `expect`.
abbrev pub map_err : {E F A : Type 0} → (E → F) → Outcome E A → Outcome F A
map_err f (ok a) = ok a
map_err f (err e) = err (f e)
map_err f panic = panic

abbrev pub unwrap : {E F A : Type 0} → Outcome E A → Outcome F A
unwrap (ok a) = ok a
unwrap (err e) = panic
unwrap panic = panic

abbrev pub ok_or : {E A : Type 0} → Option A → E → Outcome E A
ok_or none e = err e
ok_or (some a) e = ok a

abbrev pub bind : {E A B : Type 0} → Outcome E A → (A → Outcome E B) → Outcome E B
bind (ok a) f = f a
bind (err e) f = err e
bind panic f = panic

-- Code that reads from, or writes to, a stream with state `S`.
abbrev pub M : Type 0 → Type 0 → Type 0 → Type 0
M S E A = S → Outcome E (A × S)

infixl 5 ◌>>=◌ ◌>>◌
abbrev pub ◌>>=◌ : {S E A B : Type 0} → M S E A → (A → M S E B) → M S E B
◌>>=◌ m f s = elim (m s) [ ok (a, s') ↦ f a s' | err e ↦ err e | panic ↦ panic ]

abbrev pub ◌>>◌ : {S E B : Type 0} → M S E (Unit {0}) → M S E B → M S E B
◌>>◌ m k s = elim (m s) [ ok (a, s') ↦ k s' | err e ↦ err e | panic ↦ panic ]

abbrev pub pure : {S E A : Type 0} → A → M S E A
pure a s = ok (a, s)

-- The `?` operator on a result whose error type differs: the error goes through `From`.
abbrev pub lift : {S E F A : Type 0} → (E → F) → M S E A → M S F A
lift f m s = map_err f (m s)

abbrev pub fail : {S E A : Type 0} → E → M S E A
fail e s = err e

-- A result that touches no stream.
abbrev pub hoist : {S E A : Type 0} → Outcome E A → M S E A
hoist (ok a) s = ok (a, s)
hoist (err e) s = err e
hoist panic s = panic

abbrev pub IsByte : ℕ → Type 0
IsByte b = b < 256
