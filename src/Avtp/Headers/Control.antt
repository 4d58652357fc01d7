-- ===== src/Avtp/Headers/Control.antt =====
-- src/avtp/headers/control.rs: the header and payload of control packets.
pub mod Laws
use rs.Prelude.{ℕ, ◌+◌, ◌^◌, ◌<◌, ◌≡◌, Bool, List, ◌++◌, length, All}
use rs.Io.{IoError, IoWrapError, io, M, ◌>>=◌, ◌>>◌, pure, lift, IsByte}
use rs.Io.Bits.{to_bits, bytes_bits}
use rs.Io.Stream.{BitReader, BitWriter}
use rs.Avtp.StreamId
use rs.Avtp.StreamId.{StreamId}
use rs.Avtp.Subtype.{UnknownSubtype}
use rs.Avtp.Headers.Common
use rs.Avtp.Headers.Common.{CommonHeader}

pub record ControlHeader : Type 0 where
  pub common : CommonHeader
  -- u9 and u11
  pub format_specific_data : ℕ
  pub control_data_length : ℕ
  pub stream_id : StreamId
  pub control_data_payload : List ℕ

-- The values of the Rust types, and the encoder's precondition on the length field.
pub record IsValid (h : ControlHeader) : Type 0 where
  pub common : Common.IsValid h.common
  pub data_fits : h.format_specific_data < 2 ^ 9
  pub length_fits : h.control_data_length < 2 ^ 11
  pub stream_id : StreamId.IsValid h.stream_id
  pub payload_bytes : All IsByte h.control_data_payload
  pub length_matches : length h.control_data_payload ≡ h.control_data_length

pub stream_id_valid : ControlHeader → Bool
stream_id_valid h = h.common.header_specific_bit

-- The bits on the wire that follow the common header, and all bits.
unfoldable pub layout_after_common : ControlHeader → List Bool
layout_after_common h =
    to_bits 9 h.format_specific_data
    ++ (to_bits 11 h.control_data_length
        ++ (StreamId.layout h.stream_id ++ bytes_bits h.control_data_payload))

unfoldable pub layout : ControlHeader → List Bool
layout h = Common.layout h.common ++ layout_after_common h

module _ ⦃r : BitReader⦄ where
  unfoldable pub decode_after_common : CommonHeader → M r.Reader IoError ControlHeader
  decode_after_common common = do
    format_specific_data ← r.read 9
    control_data_length ← r.read 11
    stream_id ← StreamId.decode
    control_data_payload ← r.read_bytes control_data_length
    pure (record {
      common = common;
      format_specific_data = format_specific_data;
      control_data_length = control_data_length;
      stream_id = stream_id;
      control_data_payload = control_data_payload;
    })

  unfoldable pub decode : M r.Reader (IoWrapError UnknownSubtype) ControlHeader
  decode = do common ← Common.decode; lift io (decode_after_common common)

module _ ⦃w : BitWriter⦄ where
  unfoldable pub encode : ControlHeader → M w.Writer IoError (Unit {0})
  encode h = do
    Common.encode h.common
    w.write 9 h.format_specific_data
    w.write 11 h.control_data_length
    StreamId.encode h.stream_id
    w.write_bytes h.control_data_payload
