-- ===== src/Avtp/Headers/Stream.antt =====
-- src/avtp/headers/stream.rs: the header and payload of stream packets. The getters and plain
-- setters that a macro generates are the fields.
pub mod Laws
use rs.Prelude.{
  ℕ, ◌+◌, ◌-◌, ◌^◌, ◌≤◌, ◌<◌, ◌≡◌, Bool, List, [], ◌∷◌, ◌++◌, length, All, ltb, leb, if◌then◌else◌,
}
use rs.Io.{
  Outcome, ok, err, IoError, IoWrapError, io, specific, M, ◌>>=◌, ◌>>◌, pure, lift, hoist, IsByte,
}
use rs.Io.Bits.{to_bits, bytes_bits}
use rs.Io.Stream.{BitReader, BitWriter}
use rs.Avtp.StreamId
use rs.Avtp.StreamId.{StreamId}
use rs.Avtp.Subtype.{UnknownSubtype}
use rs.Avtp.Headers.Common
use rs.Avtp.Headers.Common.{CommonHeader}

pub data StreamDataError : Type 0 where
  payload_too_large : ℕ → StreamDataError

pub record GenericStreamData : Type 0 where
  pub common : CommonHeader
  pub media_clock_restart : Bool
  pub avtp_timestamp_valid : Bool
  -- u8
  pub sequence_num : ℕ
  pub timestamp_uncertain : Bool
  pub stream_id : StreamId
  -- The raw u32 of an `AvtpTimestamp`.
  pub avtp_timestamp : ℕ

pub record SpecificStreamData : Type 0 where
  -- u2, u7, [u8; 4] and [u8; 2]
  pub format_specific_data : ℕ
  pub format_specific_data_1 : ℕ
  pub format_specific_data_2 : List ℕ
  pub format_specific_data_3 : List ℕ
  pub stream_data_payload : List ℕ

pub record StreamHeader : Type 0 where
  pub generic : GenericStreamData
  pub specific : SpecificStreamData

-- The values of the Rust types, and the payload's bound that the constructors keep.
pub record IsValidGeneric (g : GenericStreamData) : Type 0 where
  pub common : Common.IsValid g.common
  pub sequence_fits : g.sequence_num < 2 ^ 8
  pub stream_id : StreamId.IsValid g.stream_id
  pub timestamp_fits : g.avtp_timestamp < 2 ^ 32

pub record IsValidSpecific (s : SpecificStreamData) : Type 0 where
  pub data_fits : s.format_specific_data < 2 ^ 2
  pub data_1_fits : s.format_specific_data_1 < 2 ^ 7
  pub data_2_length : length s.format_specific_data_2 ≡ 4
  pub data_2_bytes : All IsByte s.format_specific_data_2
  pub data_3_length : length s.format_specific_data_3 ≡ 2
  pub data_3_bytes : All IsByte s.format_specific_data_3
  pub payload_bytes : All IsByte s.stream_data_payload
  pub payload_length : length s.stream_data_payload < 2 ^ 16

pub record IsValid (h : StreamHeader) : Type 0 where
  pub generic : IsValidGeneric h.generic
  pub specific : IsValidSpecific h.specific

unfoldable pub stream_id_valid : GenericStreamData → Bool
stream_id_valid g = g.common.header_specific_bit

pub set_stream_id_valid : GenericStreamData → Bool → GenericStreamData
set_stream_id_valid g val = record g { common = record c { header_specific_bit = val } }
  where
    c : CommonHeader
    c = g.common

-- `SpecificStreamData::new_unchecked`
unfoldable pub new_specific :
    ℕ → ℕ → List ℕ → List ℕ → List ℕ → Outcome StreamDataError SpecificStreamData
new_specific data0 data1 data2 data3 payload =
    if ltb (2 ^ 16 - 1) (length payload)
    then err (payload_too_large (length payload))
    else ok (record {
      format_specific_data = data0;
      format_specific_data_1 = data1;
      format_specific_data_2 = data2;
      format_specific_data_3 = data3;
      stream_data_payload = payload;
    })

-- The new value, or the error and the value as it was.
unfoldable pub set_stream_data_payload :
    SpecificStreamData → List ℕ → SpecificStreamData × Outcome StreamDataError (Unit {0})
set_stream_data_payload s payload =
    if ltb (2 ^ 16 - 1) (length payload)
    then (s, err (payload_too_large (length payload)))
    else (record s { stream_data_payload = payload }, ok tt)

-- The bits on the wire that follow the common header.
unfoldable pub layout_after_common : StreamHeader → List Bool
layout_after_common h =
    (g.media_clock_restart ∷ [])
    ++ (to_bits 2 s.format_specific_data
        ++ ((g.avtp_timestamp_valid ∷ [])
            ++ (to_bits 8 g.sequence_num
                ++ (to_bits 7 s.format_specific_data_1
                    ++ ((g.timestamp_uncertain ∷ [])
                        ++ (StreamId.layout g.stream_id
                            ++ (to_bits 32 g.avtp_timestamp
                                ++ (bytes_bits s.format_specific_data_2
                                    ++ (to_bits 16 (length s.stream_data_payload)
                                        ++ (bytes_bits s.format_specific_data_3
                                            ++ bytes_bits s.stream_data_payload))))))))))
  where
    open h use {generic as g, specific as s}

unfoldable pub layout : StreamHeader → List Bool
layout h = Common.layout h.generic.common ++ layout_after_common h

module _ ⦃r : BitReader⦄ where
  unfoldable pub decode_after_common : CommonHeader → M r.Reader IoError StreamHeader
  decode_after_common common = do
    media_clock_restart ← r.read_bit
    format_specific_data ← r.read 2
    avtp_timestamp_valid ← r.read_bit
    sequence_num ← r.read 8
    format_specific_data_1 ← r.read 7
    timestamp_uncertain ← r.read_bit
    stream_id ← StreamId.decode
    avtp_timestamp ← r.read_to 32
    format_specific_data_2 ← r.read_array 4
    stream_data_length ← r.read_to 16
    format_specific_data_3 ← r.read_array 2
    stream_data_payload ← r.read_bytes stream_data_length
    pure (record {
      generic = record {
        common = common;
        media_clock_restart = media_clock_restart;
        avtp_timestamp_valid = avtp_timestamp_valid;
        sequence_num = sequence_num;
        timestamp_uncertain = timestamp_uncertain;
        stream_id = stream_id;
        avtp_timestamp = avtp_timestamp;
      };
      specific = record {
        format_specific_data = format_specific_data;
        format_specific_data_1 = format_specific_data_1;
        format_specific_data_2 = format_specific_data_2;
        format_specific_data_3 = format_specific_data_3;
        stream_data_payload = stream_data_payload;
      };
    })

  unfoldable pub decode : M r.Reader (IoWrapError UnknownSubtype) StreamHeader
  decode = do common ← Common.decode; lift io (decode_after_common common)

-- `u16::try_from(len)`, with the error that the encoder makes of a failure.
unfoldable pub stream_data_length : ℕ → Outcome (IoWrapError StreamDataError) ℕ
stream_data_length len = if ltb len (2 ^ 16) then ok len else err (specific (payload_too_large len))

module _ ⦃w : BitWriter⦄ where
  unfoldable pub encode : StreamHeader → M w.Writer (IoWrapError StreamDataError) (Unit {0})
  encode h = do
    lift io (Common.encode h.generic.common)
    lift io (w.write_bit h.generic.media_clock_restart)
    lift io (w.write 2 h.specific.format_specific_data)
    lift io (w.write_bit h.generic.avtp_timestamp_valid)
    lift io (w.write 8 h.generic.sequence_num)
    lift io (w.write 7 h.specific.format_specific_data_1)
    lift io (w.write_bit h.generic.timestamp_uncertain)
    lift io (StreamId.encode h.generic.stream_id)
    lift io (w.write_from 32 h.generic.avtp_timestamp)
    lift io (w.write_array h.specific.format_specific_data_2)
    len ← hoist (stream_data_length (length h.specific.stream_data_payload))
    lift io (w.write_from 16 len)
    lift io (w.write_array h.specific.format_specific_data_3)
    lift io (w.write_bytes h.specific.stream_data_payload)
