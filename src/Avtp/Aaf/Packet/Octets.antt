-- ===== src/Avtp/Aaf/Packet/Octets.antt =====
-- The third block of format-specific data, octet by octet (src/avtp/formats/aaf/common.rs).
use rs.Prelude.{
  ℕ, ◌+◌, ◌*◌, ◌/◌, ◌%◌, ◌^◌, ◌<◌, ◌≡◌, refl, sym, ap, ◌∙◌, Bool, List, [], ◌∷◌, ◌++◌, All, arith,
  append_assoc, leb,
}
use rs.Io.{ok, IsByte}
use rs.Io.Bits.{bit, to_bits, bytes_bits}
use rs.Io.Bytes.{bytes_bits-cons, bytes_bits-one, to_bits-append, to_bits-bit}
use rs.Io.Stream.{BitReader, BitWriter}
use rs.Io.Run.{Reads-bind, Reads-map, Writes-bind}
use rs.Io.Steps.{Reads-read, Reads-read_bit, Writes-write, Writes-write_bit}
use rs.Io.Fixed.{parse_array, parse_array-Reads, fill_array, fill_array-Writes}
use rs.Avtp.Aaf.Packet.{Flags, read_flags, write_flags}

flags_bits : Flags → List Bool
flags_bits f =
    to_bits 3 f.asfd
    ++ ((f.sparse_timestamp ∷ [])
        ++ (to_bits 4 f.event_flags ++ to_bits 8 f.aaf_format_specific_data_2))

-- The flags that two octets hold, and the octets of flags.
unfoldable pub flags_of : ℕ → ℕ → Flags
flags_of x y = record {
  asfd = x / 32;
  sparse_timestamp = leb 16 (x % 32);
  event_flags = x % 16;
  aaf_format_specific_data_2 = y;
}

abbrev pub octets : Flags → List ℕ
octets f =
    (f.asfd * 32 + bit f.sparse_timestamp * 16 + f.event_flags) ∷ f.aaf_format_specific_data_2 ∷ []

bit_below : (b : Bool) → bit b < 2
bit_below b = ground arith

octet_bits :
    (a : ℕ) (b : Bool) (c y : ℕ)
    → a < 8
    → c < 16
    → bytes_bits ((a * 32 + bit b * 16 + c) ∷ y ∷ [])
      ≡ to_bits 3 a ++ ((b ∷ []) ++ (to_bits 4 c ++ to_bits 8 y))
octet_bits a b c y ha hc =
    bytes_bits-cons (a * 32 + bit b * 16 + c) (y ∷ [])
    ∙ ap (λ l. to_bits 8 (a * 32 + bit b * 16 + c) ++ l) (bytes_bits-one y)
    ∙ simp (append_assoc, whole, low, to_bits-bit)
  where
    whole : to_bits 8 (a * 32 + bit b * 16 + c) ≡ to_bits 3 a ++ to_bits 5 (bit b * 16 + c)
    whole = sym (
        to_bits-append 3 5 8 a (bit b * 16 + c) (a * 32 + bit b * 16 + c) refl ha
          (omega (arith, bit_below b)) (omega arith))

    low : to_bits 5 (bit b * 16 + c) ≡ to_bits 1 (bit b) ++ to_bits 4 c
    low = sym (to_bits-append 1 4 5 (bit b) c (bit b * 16 + c) refl (bit_below b) hc refl)

pub flags_of-octets :
    (f : Flags)
    → f.asfd < 2 ^ 3
    → f.event_flags < 2 ^ 4
    → flags_of
        (f.asfd * 32 + bit f.sparse_timestamp * 16 + f.event_flags)
        f.aaf_format_specific_data_2
      ≡ f
unfolding flags_of
flags_of-octets f ha he = go f.sparse_timestamp
  where
    go :
        (b : Bool)
        → flags_of (f.asfd * 32 + bit b * 16 + f.event_flags) f.aaf_format_specific_data_2
          ≡ record f { sparse_timestamp = b }
    go b = ground arith

split_octet : (x : ℕ) → x / 32 * 32 + bit (leb 16 (x % 32)) * 16 + x % 16 ≡ x
split_octet x = ground arith

module _ ⦃r : BitReader⦄ where
  pub flags_of_octets :
      {E : Type 0} (x y : ℕ)
      → All IsByte (x ∷ y ∷ [])
      → parse_array {E = E} read_flags (x ∷ y ∷ []) ≡ ok (flags_of x y)
  unfolding read_flags flags_of
  flags_of_octets x y (hx, (hy, _)) =
      parse_array-Reads (x ∷ y ∷ [])
        (Reads-bind _ (Reads-read 3 (x / 32) (omega arith)) (
          Reads-bind _ (Reads-read_bit (leb 16 (x % 32)))
            (Reads-bind _ (Reads-read 4 (x % 16) (omega arith)) (Reads-map _ (Reads-read 8 y hy)))))
        (ap (λ n. bytes_bits (n ∷ y ∷ [])) (sym (split_octet x))
          ∙ octet_bits (x / 32) (leb 16 (x % 32)) (x % 16) y (omega arith) (omega arith))
        (hx, (hy, tt))

module _ ⦃w : BitWriter⦄ where
  pub octets_of_flags :
      {E : Type 0} (f : Flags)
      → f.asfd < 2 ^ 3
      → f.event_flags < 2 ^ 4
      → f.aaf_format_specific_data_2 < 2 ^ 8
      → fill_array {E = E} (write_flags f) 2 ≡ ok (octets f)
  unfolding write_flags
  octets_of_flags f ha he hd =
      fill_array-Writes 2 (octets f)
        (Writes-bind (Writes-write 3 f.asfd ha) (
          Writes-bind (Writes-write_bit f.sparse_timestamp) (
            Writes-bind (Writes-write 4 f.event_flags he)
              (Writes-write 8 f.aaf_format_specific_data_2 hd))))
        (sym
          (octet_bits f.asfd f.sparse_timestamp f.event_flags f.aaf_format_specific_data_2 ha he))
        refl (omega (arith, bit_below f.sparse_timestamp))
