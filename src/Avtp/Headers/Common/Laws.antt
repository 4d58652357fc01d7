-- ===== src/Avtp/Headers/Common/Laws.antt =====
-- The common header is read and written as its 12 bits (src/avtp/headers/common.rs).

use rs.Io.{unexpected_eof, io}
use rs.Io.Stream.{BitReader, BitWriter}
use rs.Io.Run.{
  Reads, Reads-bind, Reads-lift, Reads-map, Writes, Writes-bind, NoPanic, NoPanic-bind,
  NoPanic-lift, NoPanic-pure,
}
use rs.Io.Steps.{Reads-read, Reads-read_bit, Writes-write, Writes-write_bit}
use rs.Io.Total.{read_total, read_bit_total}
use rs.Avtp.Subtype.Laws as SubtypeLaws
use rs.Avtp.Headers.Common.{CommonHeader, IsValid, layout, encode, decode}

module _ ⦃r : BitReader⦄ where
  pub decode-layout : (h : CommonHeader) → IsValid h → Reads (io unexpected_eof) decode (layout h) h
  unfolding decode layout
  decode-layout h v = Reads-bind _ (SubtypeLaws.decode-layout h.subtype) (
      Reads-bind _ (Reads-lift _ (Reads-read_bit h.header_specific_bit))
        (Reads-map _ (Reads-lift _ (Reads-read 3 h.version v.version_fits))))

  pub decode_total : NoPanic decode
  unfolding decode
  decode_total = NoPanic-bind _ SubtypeLaws.decode_total λ subtype.
      NoPanic-bind _ (NoPanic-lift _ read_bit_total)
        λ bit. NoPanic-bind _ (NoPanic-lift _ (read_total 3)) λ version. NoPanic-pure _

module _ ⦃w : BitWriter⦄ where
  pub encode-layout : (h : CommonHeader) → IsValid h → Writes (encode h) (layout h)
  unfolding encode layout
  encode-layout h v = Writes-bind (SubtypeLaws.encode-layout h.subtype) (
      Writes-bind (Writes-write_bit h.header_specific_bit)
        (Writes-write 3 h.version v.version_fits))
