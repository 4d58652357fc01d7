-- ===== src/Avtp/Headers/Control/Laws.antt =====
-- The control header is read and written as its bits (src/avtp/headers/control.rs).

use rs.Io.{unexpected_eof, io}
use rs.Io.Stream.{BitReader, BitWriter}
use rs.Io.Run.{
  Reads, Reads-bind, Reads-lift, Reads-map, Writes, Writes-bind, NoPanic, NoPanic-bind,
  NoPanic-pure,
}
use rs.Io.Steps.{Reads-read, Reads-read_bytes, Writes-write, Writes-write_bytes}
use rs.Io.Total.{read_total, read_bytes_total}
use rs.Avtp.StreamId
use rs.Avtp.Headers.Common
use rs.Avtp.Headers.Common.Laws as CommonLaws
use rs.Avtp.Headers.Control.{
  ControlHeader, IsValid, layout, layout_after_common, encode, decode, decode_after_common,
}

module _ ⦃r : BitReader⦄ where
  pub decode_after_common-layout :
      (h : ControlHeader)
      → IsValid h
      → Reads unexpected_eof (decode_after_common h.common) (layout_after_common h) h
  unfolding decode_after_common layout_after_common
  decode_after_common-layout h v = Reads-bind _ (Reads-read 9 h.format_specific_data v.data_fits) (
      Reads-bind _ (Reads-read 11 h.control_data_length v.length_fits) (
        Reads-bind _ (StreamId.decode-layout h.stream_id v.stream_id) (
          Reads-map _
            (Reads-read_bytes _ h.control_data_payload v.length_matches v.payload_bytes))))

  pub decode-layout :
      (h : ControlHeader) → IsValid h → Reads (io unexpected_eof) decode (layout h) h
  unfolding decode layout
  decode-layout h v =
      Reads-bind _ (CommonLaws.decode-layout h.common v.common)
        (Reads-lift _ (decode_after_common-layout h v))

  pub decode_after_common_total :
      (common : Common.CommonHeader) → NoPanic (decode_after_common common)
  unfolding decode_after_common
  decode_after_common_total common = NoPanic-bind _ (read_total 9) λ _.
      NoPanic-bind _ (read_total 11) λ len.
        NoPanic-bind _ StreamId.decode_total
          λ _. NoPanic-bind _ (read_bytes_total len) λ _. NoPanic-pure _

module _ ⦃w : BitWriter⦄ where
  pub encode-layout : (h : ControlHeader) → IsValid h → Writes (encode h) (layout h)
  unfolding encode layout layout_after_common
  encode-layout h v = Writes-bind (CommonLaws.encode-layout h.common v.common) (
      Writes-bind (Writes-write 9 h.format_specific_data v.data_fits) (
        Writes-bind (Writes-write 11 h.control_data_length v.length_fits) (
          Writes-bind (StreamId.encode-layout h.stream_id v.stream_id)
            (Writes-write_bytes h.control_data_payload v.payload_bytes))))
