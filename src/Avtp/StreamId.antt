-- ===== src/Avtp/StreamId.antt =====
-- src/avtp/stream_id.rs. A `MacAddr` of the crate `pnet` is represented by its six octets.
use rs.Prelude.{ℕ, ◌^◌, ◌<◌, ◌≡◌, Bool, List, ◌++◌, length, All}
use rs.Io.{unexpected_eof, IoError, M, ◌>>=◌, ◌>>◌, pure, IsByte}
use rs.Io.Bits.{to_bits, bytes_bits}
use rs.Io.Stream.{BitReader, BitWriter}
use rs.Io.Steps.{Reads-read_array, Reads-read_to, Writes-write_array, Writes-write_from}
use rs.Io.Total.{read_array_total, read_to_total}
use rs.Io.Run.{
  Reads, Reads-bind, Reads-map, NoPanic, NoPanic-bind, NoPanic-pure, Writes, Writes-bind,
}

pub record StreamId : Type 0 where
  pub mac_address : List ℕ
  pub unique_id : ℕ

-- The values of the Rust type: six octets and a u16.
pub record IsValid (s : StreamId) : Type 0 where
  pub octets : length s.mac_address ≡ 6
  pub bytes : All IsByte s.mac_address
  pub uid : s.unique_id < 2 ^ 16

-- The 64 bits on the wire.
unfoldable pub layout : StreamId → List Bool
layout s = bytes_bits s.mac_address ++ to_bits 16 s.unique_id

module _ ⦃r : BitReader⦄ where
  unfoldable pub decode : M r.Reader IoError StreamId
  decode = do
    mac ← r.read_array 6
    unique_id ← r.read_to 16
    pure (record { mac_address = mac; unique_id = unique_id })

  pub decode-layout : (s : StreamId) → IsValid s → Reads unexpected_eof decode (layout s) s
  unfolding decode layout
  decode-layout s v =
      Reads-bind _ (Reads-read_array 6 s.mac_address v.octets v.bytes)
        (Reads-map _ (Reads-read_to 16 s.unique_id v.uid))

  pub decode_total : NoPanic decode
  unfolding decode
  decode_total =
      NoPanic-bind _ (read_array_total 6)
        λ mac. NoPanic-bind _ (read_to_total 16) λ unique_id. NoPanic-pure _

module _ ⦃w : BitWriter⦄ where
  unfoldable pub encode : StreamId → M w.Writer IoError (Unit {0})
  encode s = do w.write_array s.mac_address; w.write_from 16 s.unique_id

  pub encode-layout : (s : StreamId) → IsValid s → Writes (encode s) (layout s)
  unfolding encode layout
  encode-layout s v =
      Writes-bind (Writes-write_array s.mac_address v.bytes)
        (Writes-write_from 16 s.unique_id v.uid)
