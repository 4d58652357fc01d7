-- ===== src/Avtp/Aaf/Pcm/Octets.antt =====
-- The first block of format-specific data of uncompressed audio, octet by octet
-- (src/avtp/formats/aaf/pcm.rs).
use rs.Prelude.{
  ℕ, ◌+◌, ◌*◌, ◌/◌, ◌%◌, ◌^◌, ◌<◌, ◌≡◌, refl, sym, ap, ◌∙◌, Bool, List, [], ◌∷◌, ◌++◌, All, arith,
  append_assoc,
}
use rs.Io.{ok, IsByte}
use rs.Io.Bits.{to_bits, bytes_bits}
use rs.Io.Bytes.{bytes_bits-cons, bytes_bits-one, to_bits-append}
use rs.Io.Stream.{BitReader, BitWriter}
use rs.Io.Run.{Reads-bind, Reads-map, Writes-bind}
use rs.Io.Steps.{Reads-read, Writes-write}
use rs.Io.Fixed.{parse_array, parse_array-Reads, fill_array, fill_array-Writes}
use rs.Avtp.Aaf.Pcm.{AafPcm, SampleRate, protocol_value, read_fields, write_fields}

-- 4 bits of sample rate, 2 reserved, 10 of channels and 8 of depth.
fields_bits : ℕ → ℕ → ℕ → ℕ → List Bool
fields_bits rate reserved channels depth =
    to_bits 4 rate ++ (to_bits 2 reserved ++ (to_bits 10 channels ++ to_bits 8 depth))

octet_bits :
    (x y z : ℕ)
    → x < 256
    → y < 256
    → bytes_bits (x ∷ y ∷ z ∷ []) ≡ fields_bits (x / 16) (x / 4 % 4) (x % 4 * 256 + y) z
unfolding fields_bits
octet_bits x y z hx hy =
    bytes_bits-cons x (y ∷ z ∷ [])
    ∙ ap (λ l. to_bits 8 x ++ l)
        (bytes_bits-cons y (z ∷ []) ∙ ap (λ l. to_bits 8 y ++ l) (bytes_bits-one z))
    ∙ simp (append_assoc, first, second, third)
  where
    first : to_bits 8 x ≡ to_bits 4 (x / 16) ++ to_bits 4 (x % 16)
    first =
        sym
          (to_bits-append 4 4 8 (x / 16) (x % 16) x refl (omega arith) (omega arith) (omega arith))

    second : to_bits 4 (x % 16) ≡ to_bits 2 (x / 4 % 4) ++ to_bits 2 (x % 4)
    second = sym (
        to_bits-append 2 2 4 (x / 4 % 4) (x % 4) (x % 16) refl (omega arith) (omega arith)
          (omega arith))

    third : to_bits 10 (x % 4 * 256 + y) ≡ to_bits 2 (x % 4) ++ to_bits 8 y
    third = sym (to_bits-append 2 8 10 (x % 4) y (x % 4 * 256 + y) refl (omega arith) hy refl)

module _ ⦃r : BitReader⦄ where
  -- The three octets as the fields that they hold.
  pub fields_of_octets :
      {E : Type 0} (x y z : ℕ)
      → All IsByte (x ∷ y ∷ z ∷ [])
      → parse_array {E = E} read_fields (x ∷ y ∷ z ∷ [])
        ≡ ok (record {
          nominal_sample_rate = x / 16;
          channels_per_frame = x % 4 * 256 + y;
          bit_depth = z;
        })
  unfolding read_fields fields_bits
  fields_of_octets x y z (hx, (hy, (hz, _))) =
      parse_array-Reads (x ∷ y ∷ z ∷ [])
        (Reads-bind _ (Reads-read 4 (x / 16) (omega arith)) (
          Reads-bind _ (Reads-read 2 (x / 4 % 4) (omega arith)) (
            Reads-bind _ (Reads-read 10 (x % 4 * 256 + y) (omega arith))
              (Reads-map _ (Reads-read 8 z hz)))))
        (octet_bits x y z hx hy) (hx, (hy, (hz, tt)))

pub protocol_value_fits : (s : SampleRate) → protocol_value s < 2 ^ 4
unfolding protocol_value
protocol_value_fits s = ground arith

-- The octets that a packet's fields make.
abbrev pub octets : AafPcm → List ℕ
octets p =
    (protocol_value p.nominal_sample_rate * 16 + p.channels_per_frame / 256)
    ∷ p.channels_per_frame % 256
    ∷ p.bit_depth
    ∷ []

module _ ⦃w : BitWriter⦄ where
  pub octets_of_fields :
      {E : Type 0} (p : AafPcm)
      → p.channels_per_frame < 2 ^ 10
      → p.bit_depth < 2 ^ 8
      → fill_array {E = E} (write_fields p) 3 ≡ ok (octets p)
  unfolding write_fields fields_bits
  octets_of_fields p hc hd =
      let hr = protocol_value_fits p.nominal_sample_rate in
      fill_array-Writes 3 (octets p)
        (Writes-bind (Writes-write 4 (protocol_value p.nominal_sample_rate) hr) (
          Writes-bind (Writes-write 2 0 (omega arith)) (
            Writes-bind (Writes-write 10 p.channels_per_frame hc) (Writes-write 8 p.bit_depth hd))))
        (sym (
          octet_bits _ _ _ (omega arith) (omega arith)
          ∙ same p.bit_depth (omega (arith, hr)) (omega (arith, hr)) (omega (arith, hr))))
        refl (omega (arith, hr))
    where
      same :
          (d : ℕ) {a b c a' b' c' : ℕ}
          → a ≡ a'
          → b ≡ b'
          → c ≡ c'
          → fields_bits a b c d ≡ fields_bits a' b' c' d
      same d e f g = cc
