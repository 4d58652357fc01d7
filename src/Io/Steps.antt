-- ===== src/Io/Steps.antt =====
-- The reader's and the writer's own steps, as facts that chains are composed of.
use rs.Prelude.{
  ◌*◌, ap, ◌++◌, arith, length-append, ℕ, ◌^◌, ◌<◌, ◌≡◌, Bool, List, [], ◌∷◌, length, All,
}
use rs.Io.{IsByte, unexpected_eof}
use rs.Io.Bits.{to_bits, bytes_bits, length-to_bits, length-bytes_bits}
use rs.Io.Stream.{BitReader, BitWriter}
use rs.Io.Run.{Reads, Writes}

cut_bits :
    (n v : ℕ) (l : List Bool) (x : Bool) (more : List Bool)
    → l ++ (x ∷ more) ≡ to_bits n v
    → length l < n
cut_bits n v l x more e = omega (arith, ap length e, length-append l (x ∷ more), length-to_bits n v)

cut_bytes :
    (n : ℕ) (bs : List ℕ)
    → length bs ≡ n
    → (l : List Bool) (x : Bool) (more : List Bool) → l ++ (x ∷ more) ≡ bytes_bits bs
    → length l < 8 * n
cut_bytes n bs len l x more e =
    omega (arith, ap length e, length-append l (x ∷ more), length-bytes_bits bs)

module _ ⦃b : BitReader⦄ where
  open b use {remaining}

  pub Reads-read : (n v : ℕ) → v < 2 ^ n → Reads unexpected_eof (b.read n) (to_bits n v) v
  Reads-read n v h = record {
    run = λ rest. b.read_consumes n v rest h;
    short = λ r x more e. b.read_eof n r (cut_bits n v (remaining r) x more e);
  }

  pub Reads-read_to : (n v : ℕ) → v < 2 ^ n → Reads unexpected_eof (b.read_to n) (to_bits n v) v
  Reads-read_to n v h = record {
    run = λ rest. b.read_to_consumes n v rest h;
    short = λ r x more e. b.read_to_eof n r (cut_bits n v (remaining r) x more e);
  }

  pub Reads-read_array :
      (n : ℕ) (bs : List ℕ)
      → length bs ≡ n
      → All IsByte bs
      → Reads unexpected_eof (b.read_array n) (bytes_bits bs) bs
  Reads-read_array n bs e h = record {
    run = λ rest. rw (← e) (b.read_array_consumes bs rest h);
    short = λ r x more e'. b.read_array_eof n r (cut_bytes n bs e (remaining r) x more e');
  }

  pub Reads-read_bytes :
      (n : ℕ) (bs : List ℕ)
      → length bs ≡ n
      → All IsByte bs
      → Reads unexpected_eof (b.read_bytes n) (bytes_bits bs) bs
  Reads-read_bytes n bs e h = record {
    run = λ rest. rw (← e) (b.read_bytes_consumes bs rest h);
    short = λ r x more e'. b.read_bytes_eof n r (cut_bytes n bs e (remaining r) x more e');
  }

  pub Reads-read_bit : (y : Bool) → Reads unexpected_eof b.read_bit (y ∷ []) y
  Reads-read_bit y = record {
    run = b.read_bit_consumes y;
    short = λ r x more e.
        b.read_bit_eof r (omega (arith, ap length e, length-append (remaining r) (x ∷ more)));
  }

module _ ⦃b : BitWriter⦄ where
  pub Writes-write : (n v : ℕ) → v < 2 ^ n → Writes (b.write n v) (to_bits n v)
  Writes-write n v h = record { run = b.write_produces n v h }

  pub Writes-write_bit : (x : Bool) → Writes (b.write_bit x) (x ∷ [])
  Writes-write_bit x = record { run = b.write_bit_produces x }

  pub Writes-write_from : (n v : ℕ) → v < 2 ^ n → Writes (b.write_from n v) (to_bits n v)
  Writes-write_from n v h = record { run = b.write_from_produces n v h }

  pub Writes-write_array : (bs : List ℕ) → All IsByte bs → Writes (b.write_array bs) (bytes_bits bs)
  Writes-write_array bs h = record { run = b.write_array_produces bs h }

  pub Writes-write_bytes : (bs : List ℕ) → All IsByte bs → Writes (b.write_bytes bs) (bytes_bits bs)
  Writes-write_bytes bs h = record { run = b.write_bytes_produces bs h }
