-- ===== src/Avtp/Headers/Stream/Laws.antt =====
-- The stream header is read and written as its bits (src/avtp/headers/stream.rs).
use rs.Prelude.{ℕ, ◌<◌, ◌^◌, ◌≡◌, refl, length, lt→ltb}
use rs.Io.{io, unexpected_eof, ok}
use rs.Io.Stream.{BitReader, BitWriter}
use rs.Io.Run.{
  Reads, Reads-bind, Reads-lift, Reads-map, Writes, Writes-bind, Writes-lift, Writes-hoist, NoPanic,
  NoPanic-bind, NoPanic-pure,
}
use rs.Io.Steps.{
  Reads-read, Reads-read_bit, Reads-read_to, Reads-read_array, Reads-read_bytes, Writes-write,
  Writes-write_bit, Writes-write_from, Writes-write_array, Writes-write_bytes,
}
use rs.Io.Total.{read_total, read_bit_total, read_to_total, read_array_total, read_bytes_total}
use rs.Avtp.StreamId
use rs.Avtp.Headers.Common
use rs.Avtp.Headers.Common.Laws as CommonLaws
use rs.Avtp.Headers.Stream.{
  StreamHeader, IsValid, layout, layout_after_common, encode, decode, decode_after_common,
  stream_data_length,
}

module _ ⦃r : BitReader⦄ where
  pub decode_after_common-layout :
      (h : StreamHeader)
      → IsValid h
      → Reads unexpected_eof (decode_after_common h.generic.common) (layout_after_common h) h
  unfolding decode_after_common layout_after_common
  decode_after_common-layout h v = Reads-bind _ (Reads-read_bit g.media_clock_restart) (
      Reads-bind _ (Reads-read 2 s.format_specific_data vs.data_fits) (
        Reads-bind _ (Reads-read_bit g.avtp_timestamp_valid) (
          Reads-bind _ (Reads-read 8 g.sequence_num vg.sequence_fits) (
            Reads-bind _ (Reads-read 7 s.format_specific_data_1 vs.data_1_fits) (
              Reads-bind _ (Reads-read_bit g.timestamp_uncertain) (
                Reads-bind _ (StreamId.decode-layout g.stream_id vg.stream_id) (
                  Reads-bind _ (Reads-read_to 32 g.avtp_timestamp vg.timestamp_fits) (
                    Reads-bind _
                      (Reads-read_array 4 s.format_specific_data_2 vs.data_2_length vs.data_2_bytes)
                      (Reads-bind _
                        (Reads-read_to 16 (length s.stream_data_payload) vs.payload_length)
                        (Reads-bind _
                          (Reads-read_array 2 s.format_specific_data_3 vs.data_3_length
                            vs.data_3_bytes)
                          (Reads-map _ (
                            Reads-read_bytes _ s.stream_data_payload refl
                              vs.payload_bytes))))))))))))
    where
      open h use {generic as g, specific as s}
      open v use {generic as vg, specific as vs}

  pub decode-layout : (h : StreamHeader) → IsValid h → Reads (io unexpected_eof) decode (layout h) h
  unfolding decode layout
  decode-layout h v =
      Reads-bind _ (CommonLaws.decode-layout h.generic.common v.generic.common)
        (Reads-lift _ (decode_after_common-layout h v))

  pub decode_after_common_total :
      (common : Common.CommonHeader) → NoPanic (decode_after_common common)
  unfolding decode_after_common
  decode_after_common_total common = NoPanic-bind _ read_bit_total λ _.
      NoPanic-bind _ (read_total 2) λ _. NoPanic-bind _ read_bit_total λ _.
        NoPanic-bind _ (read_total 8) λ _. NoPanic-bind _ (read_total 7) λ _.
          NoPanic-bind _ read_bit_total λ _. NoPanic-bind _ StreamId.decode_total λ _.
            NoPanic-bind _ (read_to_total 32) λ _. NoPanic-bind _ (read_array_total 4) λ _.
              NoPanic-bind _ (read_to_total 16) λ len.
                NoPanic-bind _ (read_array_total 2)
                  λ _. NoPanic-bind _ (read_bytes_total len) λ _. NoPanic-pure _

length_fits : (len : ℕ) → len < 2 ^ 16 → stream_data_length len ≡ ok len
unfolding stream_data_length
length_fits len h = rw (lt→ltb _ _ h) refl

module _ ⦃w : BitWriter⦄ where
  pub encode-layout : (h : StreamHeader) → IsValid h → Writes (encode h) (layout h)
  unfolding encode layout layout_after_common
  encode-layout h v = Writes-bind (Writes-lift _ (CommonLaws.encode-layout g.common vg.common)) (
      Writes-bind (Writes-lift _ (Writes-write_bit g.media_clock_restart)) (
        Writes-bind (Writes-lift _ (Writes-write 2 s.format_specific_data vs.data_fits)) (
          Writes-bind (Writes-lift _ (Writes-write_bit g.avtp_timestamp_valid)) (
            Writes-bind (Writes-lift _ (Writes-write 8 g.sequence_num vg.sequence_fits)) (
              Writes-bind (Writes-lift _ (Writes-write 7 s.format_specific_data_1 vs.data_1_fits)) (
                Writes-bind (Writes-lift _ (Writes-write_bit g.timestamp_uncertain)) (
                  Writes-bind (Writes-lift _ (StreamId.encode-layout g.stream_id vg.stream_id)) (
                    Writes-bind
                      (Writes-lift _ (Writes-write_from 32 g.avtp_timestamp vg.timestamp_fits))
                      (Writes-bind
                        (Writes-lift _
                          (Writes-write_array s.format_specific_data_2 vs.data_2_bytes))
                        (Writes-hoist _ _
                          (length_fits (length s.stream_data_payload) vs.payload_length)
                          (Writes-bind
                            (Writes-lift _ (
                              Writes-write_from 16 (length s.stream_data_payload)
                                vs.payload_length))
                            (Writes-bind
                              (Writes-lift _
                                (Writes-write_array s.format_specific_data_3 vs.data_3_bytes))
                              (Writes-lift _ (
                                Writes-write_bytes s.stream_data_payload
                                  vs.payload_bytes))))))))))))))
    where
      open h use {generic as g, specific as s}
      open v use {generic as vg, specific as vs}
