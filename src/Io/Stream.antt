-- ===== src/Io/Stream.antt =====
-- What the program uses of the crate `bitstream_io`, which is not part of the repository: big-endian
-- bit readers over bytes in memory, and bit writers into a buffer. `remaining` and `written` are
-- what is still to be read, and what has been written; the laws are stated by them.
use rs.Prelude.{
  ℕ, ◌+◌, ◌*◌, ◌-◌, ◌^◌, ◌%◌, ◌≤◌, ◌<◌, ◌≡◌, Bool, false, List, [], ◌∷◌, ◌++◌, length, All,
  replicate,
}
use rs.Io.{ok, err, IoError, unexpected_eof, invalid_input, M, IsByte}
use rs.Io.Bits.{to_bits, bytes_bits}

-- A step consumes these bits, whatever follows them, and returns this value.
abbrev pub Consumes :
    {R E A : Type 0} → (R → List Bool) → M R E A → List Bool → A → List Bool → Type 0
Consumes {R} remaining m bits a rest =
    (r : R) → remaining r ≡ bits ++ rest → (r' : R) × (m r ≡ ok (a, r')) × (remaining r' ≡ rest)

pub record BitReader : Type 1 where
  pub Reader : Type 0
  pub remaining : Reader → List Bool
  -- `BitReader::endian(bytes, BigEndian)`
  pub endian : List ℕ → Reader
  -- `read::<n, _>`, `read_bit`, `read_to::<uN>` by its width N, and `read_to::<[u8; n]>` and
  -- `read_bytes` by the number of bytes.
  pub read : ℕ → M Reader IoError ℕ
  pub read_bit : M Reader IoError Bool
  pub read_to : ℕ → M Reader IoError ℕ
  pub read_array : ℕ → M Reader IoError (List ℕ)
  pub read_bytes : ℕ → M Reader IoError (List ℕ)
  pub remaining-endian : (bs : List ℕ) → All IsByte bs → remaining (endian bs) ≡ bytes_bits bs
  pub read_consumes :
      (n v : ℕ) (rest : List Bool) → v < 2 ^ n → Consumes remaining (read n) (to_bits n v) v rest
  pub read_bit_consumes :
      (b : Bool) (rest : List Bool) → Consumes remaining read_bit (b ∷ []) b rest
  pub read_to_consumes :
      (n v : ℕ) (rest : List Bool) → v < 2 ^ n → Consumes remaining (read_to n) (to_bits n v) v rest
  pub read_array_consumes :
      (bs : List ℕ) (rest : List Bool)
      → All IsByte bs
      → Consumes remaining (read_array (length bs)) (bytes_bits bs) bs rest
  pub read_bytes_consumes :
      (bs : List ℕ) (rest : List Bool)
      → All IsByte bs
      → Consumes remaining (read_bytes (length bs)) (bytes_bits bs) bs rest
  -- Each fails with `UnexpectedEof` where too few bits are left.
  pub read_eof : (n : ℕ) (r : Reader) → length (remaining r) < n → read n r ≡ err unexpected_eof
  pub read_bit_eof : (r : Reader) → length (remaining r) < 1 → read_bit r ≡ err unexpected_eof
  pub read_to_eof :
      (n : ℕ) (r : Reader) → length (remaining r) < n → read_to n r ≡ err unexpected_eof
  pub read_array_eof :
      (n : ℕ) (r : Reader) → length (remaining r) < 8 * n → read_array n r ≡ err unexpected_eof
  pub read_bytes_eof :
      (n : ℕ) (r : Reader) → length (remaining r) < 8 * n → read_bytes n r ≡ err unexpected_eof

-- A step appends these bits, where the buffer has room for them.
abbrev pub Produces :
    {W E : Type 0} → (W → List Bool) → (W → ℕ → Type 0) → M W E (Unit {0}) → List Bool → Type 0
Produces {W} written HasRoom m bits =
    (k : ℕ) (w : W)
    → HasRoom w (length bits + k)
    → (w' : W) × (m w ≡ ok (tt, w')) × (written w' ≡ written w ++ bits) × HasRoom w' k

pub record BitWriter : Type 1 where
  pub Writer : Type 0
  pub written : Writer → List Bool
  -- The writer's buffer takes this many bits more.
  pub HasRoom : Writer → ℕ → Type 0
  -- `BitWriter::endian(writer, BigEndian)`, over a growing `Vec` with these bytes, and over a
  -- zeroed array of this many bytes; the bytes that have been put into the buffer.
  pub endian_vec : List ℕ → Writer
  pub endian_array : ℕ → Writer
  pub buffer : Writer → List ℕ
  pub write : ℕ → ℕ → M Writer IoError (Unit {0})
  pub write_bit : Bool → M Writer IoError (Unit {0})
  pub write_from : ℕ → ℕ → M Writer IoError (Unit {0})
  pub write_array : List ℕ → M Writer IoError (Unit {0})
  pub write_bytes : List ℕ → M Writer IoError (Unit {0})
  pub byte_align : M Writer IoError (Unit {0})
  pub written-vec : (bs : List ℕ) → All IsByte bs → written (endian_vec bs) ≡ bytes_bits bs
  pub room_vec : (bs : List ℕ) (n : ℕ) → HasRoom (endian_vec bs) n
  pub written-array : (n : ℕ) → written (endian_array n) ≡ []
  pub room_array : (n : ℕ) → HasRoom (endian_array n) (8 * n)
  -- Whole bytes are in the buffer once they are written.
  pub buffer_lem :
      (w : Writer) (bs : List ℕ) → All IsByte bs → written w ≡ bytes_bits bs → buffer w ≡ bs
  pub write_produces : (n v : ℕ) → v < 2 ^ n → Produces written HasRoom (write n v) (to_bits n v)
  -- A value that is too wide is refused.
  pub write_too_wide : (n v : ℕ) (w : Writer) → 2 ^ n ≤ v → write n v w ≡ err invalid_input
  pub write_bit_produces : (b : Bool) → Produces written HasRoom (write_bit b) (b ∷ [])
  pub write_from_produces :
      (n v : ℕ) → v < 2 ^ n → Produces written HasRoom (write_from n v) (to_bits n v)
  pub write_array_produces :
      (bs : List ℕ) → All IsByte bs → Produces written HasRoom (write_array bs) (bytes_bits bs)
  pub write_bytes_produces :
      (bs : List ℕ) → All IsByte bs → Produces written HasRoom (write_bytes bs) (bytes_bits bs)
  pub byte_align_produces :
      (w : Writer) (k : ℕ)
      → let gap = (8 - length (written w) % 8) % 8 in
        HasRoom w (gap + k)
        → (w' : Writer) × (byte_align w ≡ ok (tt, w'))
          × (written w' ≡ written w ++ replicate gap false)
          × HasRoom w' k
