-- ===== src/Avtp/Pdu/Frames.antt =====
-- What `Avtpdu::write` writes and `Avtpdu::read` reads, in octets (src/avtp/avtpdu.rs).
use rs.Prelude.{◌∷◌, ℕ, ◌+◌, ◌≡◌, refl, ap, sym, ◌∙◌, List, [], ◌++◌, length, All}
use mathlib.Core.Logic.{if_pos}
use rs.Io.{err, map_specific, unexpected_eof, ok, IsByte, io}
use rs.Io.Bits.{bytes_bits}
use rs.Io.Bytes.{bytes_bits-append, All-append, All-front, bytes_bits_nonempty}
use rs.Io.Stream.{BitReader, BitWriter}
use rs.Io.Run.{Reads, Reads-bind, Reads-lift, Reads-map, Writes, Writes-lift}
use rs.Avtp.Subtype
use rs.Avtp.Subtype.{stream, control}
use rs.Avtp.Headers.Common.Laws as CommonLaws
use rs.Avtp.Headers.Stream
use rs.Avtp.Headers.Stream.Laws as StreamLaws
use rs.Avtp.Headers.Control
use rs.Avtp.Headers.Control.Laws as ControlLaws
use rs.Avtp.Headers.Frame.{
  stream_frame, control_frame, stream_frame-layout, control_frame-layout, stream_frame-bytes,
  control_frame-bytes,
}
use rs.Avtp.Pdu.{
  subtype, Avtpdu, stream_pdu, control_pdu, alternative_pdu, validate_subtype, decode_by, decode,
  read, encode, write, header_type, common_header,
}

-- A packet of a header family that the program decodes, with a subtype of that family and fields
-- in the ranges of their types.
abbrev pub IsValid : Avtpdu → Type 0
IsValid (stream_pdu h) = Stream.IsValid h × (Subtype.header_type h.generic.common.subtype ≡ stream)
IsValid (control_pdu h) = Control.IsValid h × (Subtype.header_type h.common.subtype ≡ control)
IsValid (alternative_pdu h) = ⊥

-- The octets of such a packet.
unfoldable pub frame : Avtpdu → List ℕ
frame (stream_pdu h) = stream_frame h
frame (control_pdu h) = control_frame h
frame (alternative_pdu h) = []

frame-bytes : (p : Avtpdu) → IsValid p → All IsByte (frame p)
unfolding frame
frame-bytes (stream_pdu h) v = stream_frame-bytes h v.0
frame-bytes (control_pdu h) v = control_frame-bytes h v.0
frame-bytes (alternative_pdu h) v = absurd v

validate_compatible :
    (p : Avtpdu) → Subtype.header_type (subtype p) ≡ header_type p → validate_subtype p ≡ ok tt
unfolding validate_subtype
validate_compatible p h = rw (if_pos _ h) refl

validate-ok : (p : Avtpdu) → IsValid p → validate_subtype p ≡ ok tt
unfolding header_type common_header
validate-ok (stream_pdu h) v = validate_compatible (stream_pdu h) v.1
validate-ok (control_pdu h) v = validate_compatible (control_pdu h) v.1
validate-ok (alternative_pdu h) v = absurd v

module _ ⦃r : BitReader⦄ where
  decode-frame :
      (p : Avtpdu) → IsValid p → Reads (io unexpected_eof) decode (bytes_bits (frame p)) p
  unfolding decode decode_by frame Stream.layout Control.layout map_specific
  decode-frame (stream_pdu h) v = rw (stream_frame-layout h v.0) (
      Reads-bind _ (Reads-lift _ (CommonLaws.decode-layout h.generic.common v.0.generic.common))
        (rw v.1 (Reads-map _ (Reads-lift _ (StreamLaws.decode_after_common-layout h v.0)))))
  decode-frame (control_pdu h) v = rw (control_frame-layout h v.0) (
      Reads-bind _ (Reads-lift _ (CommonLaws.decode-layout h.common v.0.common))
        (rw v.1 (Reads-map _ (Reads-lift _ (ControlLaws.decode_after_common-layout h v.0)))))
  decode-frame (alternative_pdu h) v = absurd v

  -- Reading the octets of a packet gives the packet, whatever bytes follow them.
  pub read-frame :
      (p : Avtpdu) (trailer : List ℕ)
      → IsValid p
      → All IsByte trailer
      → read (frame p ++ trailer) ≡ ok p
  unfolding read
  read-frame p trailer v h =
      let bits =
        r.remaining-endian (frame p ++ trailer)
          (All-append IsByte (frame p) trailer (frame-bytes p v) h) in
      let (_, e, _) =
        (decode-frame p v).run (bytes_bits trailer) (r.endian (frame p ++ trailer))
          (bits ∙ bytes_bits-append (frame p) trailer) in
      rw e refl

  -- The octets of a valid stream or control packet, cut short anywhere, are refused with the I/O
  -- error for an unexpected end.
  pub read_truncated :
      (p : Avtpdu) (front : List ℕ) (x : ℕ) (back : List ℕ)
      → IsValid p
      → frame p ≡ front ++ (x ∷ back)
      → read front ≡ err (io unexpected_eof)
  unfolding read
  read_truncated p front x back v e =
      let (bit, more, e') = bytes_bits_nonempty x back in
      let cut : r.remaining (r.endian front) ++ (bit ∷ more) ≡ bytes_bits (frame p) =
        ap (λ l. l ++ (bit ∷ more))
          (r.remaining-endian front (All-front IsByte front (x ∷ back) (rw e at (frame-bytes p v))))
        ∙ ap (λ l. bytes_bits front ++ l) (sym e')
        ∙ sym (bytes_bits-append front (x ∷ back))
        ∙ ap bytes_bits (sym e) in
      rw ((decode-frame p v).short (r.endian front) bit more cut) refl

module _ ⦃w : BitWriter⦄ where
  encode-frame : (p : Avtpdu) → IsValid p → Writes (encode p) (bytes_bits (frame p))
  unfolding encode frame
  encode-frame (stream_pdu h) v =
      rw (stream_frame-layout h v.0) (Writes-lift _ (StreamLaws.encode-layout h v.0))
  encode-frame (control_pdu h) v =
      rw (control_frame-layout h v.0) (Writes-lift _ (ControlLaws.encode-layout h v.0))
  encode-frame (alternative_pdu h) v = absurd v

  -- Writing a valid stream or control packet appends to the buffer's bytes the octets of its
  -- frame, which `stream_frame` and `control_frame` describe field by field.
  pub write-frame :
      (p : Avtpdu) (buffer : List ℕ)
      → IsValid p
      → All IsByte buffer
      → write p buffer ≡ ok (buffer ++ frame p)
  unfolding write
  write-frame p buffer v h =
      let room = w.room_vec buffer (length (bytes_bits (frame p)) + 0) in
      let (done, e, bits, _) = (encode-frame p v).run 0 (w.endian_vec buffer) room in
      rw (validate-ok p v, e)
        (ap ok (
          w.buffer_lem done (buffer ++ frame p)
            (All-append IsByte buffer (frame p) h (frame-bytes p v))
            (bits
              ∙ ap (λ l. l ++ bytes_bits (frame p)) (w.written-vec buffer h)
              ∙ sym (bytes_bits-append buffer (frame p)))))

module _ ⦃r : BitReader⦄ ⦃w : BitWriter⦄ where
  -- A valid stream or control packet is written to an empty buffer, and is read back from the
  -- bytes, whatever bytes follow them.
  pub read-write :
      (p : Avtpdu) (trailer : List ℕ)
      → IsValid p
      → All IsByte trailer
      → (bytes : List ℕ) × (write p [] ≡ ok bytes) × (read (bytes ++ trailer) ≡ ok p)
  read-write p trailer v h = (frame p, write-frame p [] v tt, read-frame p trailer v h)
