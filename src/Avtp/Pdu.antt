-- ===== src/Avtp/Pdu.antt =====
-- src/avtp/avtpdu.rs: a whole AVTP packet, and how it is read and written.
pub mod Frames
pub mod Errors
use rs.Prelude.{ℕ, ◌≡◌, List}
use mathlib.Core.Logic.{ite}
use rs.Io.{
  Outcome, ok, err, panic, IoWrapError, io, specific, map_specific, M, ◌>>=◌, ◌>>◌, pure, lift,
  bind, map_err,
}
use rs.Io.Stream.{BitReader, BitWriter}
use rs.Avtp.Subtype
use rs.Avtp.Subtype.{
  Subtype, UnknownSubtype, HeaderType, HeaderType-discrete, stream, control, alternative,
}
use rs.Avtp.Headers.Common
use rs.Avtp.Headers.Common.{CommonHeader}
use rs.Avtp.Headers.Stream
use rs.Avtp.Headers.Stream.{StreamHeader, StreamDataError}
use rs.Avtp.Headers.Control
use rs.Avtp.Headers.Control.{ControlHeader}
use rs.Avtp.Headers.Alternative
use rs.Avtp.Headers.Alternative.{AlternativeHeader}

pub record IncompatibleSubtype : Type 0 where
  pub subtype : Subtype
  pub header_type : HeaderType

pub data AvtpduError : Type 0 where
  unknown : UnknownSubtype → AvtpduError
  incompatible : IncompatibleSubtype → AvtpduError
  stream_data : StreamDataError → AvtpduError

pub data Avtpdu : Type 0 where
  stream_pdu : StreamHeader → Avtpdu
  control_pdu : ControlHeader → Avtpdu
  alternative_pdu : AlternativeHeader → Avtpdu

unfoldable pub header_type : Avtpdu → HeaderType
header_type (stream_pdu h) = stream
header_type (control_pdu h) = control
header_type (alternative_pdu h) = alternative

unfoldable pub common_header : Avtpdu → CommonHeader
common_header (stream_pdu h) = h.generic.common
common_header (control_pdu h) = h.common
common_header (alternative_pdu h) = h.common

abbrev pub subtype : Avtpdu → Subtype
subtype p = (common_header p).subtype

unfoldable pub validate_subtype : Avtpdu → Outcome IncompatibleSubtype (Unit {0})
validate_subtype p =
    ite (HeaderType-discrete (Subtype.header_type (subtype p)) (header_type p)) (ok tt)
      (err (record { subtype = subtype p; header_type = header_type p }))

module _ ⦃r : BitReader⦄ where
  -- The arms of the `match` on the subtype's header type.
  unfoldable pub decode_by : HeaderType → CommonHeader → M r.Reader (IoWrapError AvtpduError) Avtpdu
  decode_by stream common = do h ← lift io (Stream.decode_after_common common); pure (stream_pdu h)
  decode_by control common = do
    h ← lift io (Control.decode_after_common common)
    pure (control_pdu h)
  decode_by alternative common = do
    h ← lift io (Alternative.decode_after_common common)
    pure (alternative_pdu h)

  unfoldable pub decode : M r.Reader (IoWrapError AvtpduError) Avtpdu
  decode = do
    common ← lift (map_specific unknown) Common.decode
    decode_by (Subtype.header_type common.subtype) common

  -- `Avtpdu::read` from bytes in memory.
  unfoldable pub read : List ℕ → Outcome (IoWrapError AvtpduError) Avtpdu
  read bytes = bind (decode (r.endian bytes)) (λ done. ok done.0)

module _ ⦃w : BitWriter⦄ where
  unfoldable pub encode : Avtpdu → M w.Writer (IoWrapError AvtpduError) (Unit {0})
  encode (stream_pdu h) = lift (map_specific stream_data) (Stream.encode h)
  encode (control_pdu h) = lift io (Control.encode h)
  encode (alternative_pdu h) = lift io (Alternative.encode h)

  -- `Avtpdu::write` into a `Vec` that holds these bytes: the bytes that it holds then.
  unfoldable pub write : Avtpdu → List ℕ → Outcome (IoWrapError AvtpduError) (List ℕ)
  write p bytes =
      bind (map_err (λ e. specific (incompatible e)) (validate_subtype p))
        λ _. bind (encode p (w.endian_vec bytes)) λ done. ok (w.buffer done.1)
