-- ===== src/Avtp/Transport.antt =====
-- src/avtp/transport/ethernet.rs: packets in Ethernet frames.
pub mod Laws
use rs.Prelude.{
  ℕ, ◌+◌, ◌*◌, ◌≡◌, Bool, List, [], ◌∷◌, ◌++◌, length, drop, Option, none, some, ltb, ◌==◌,
  if◌then◌else◌,
}
use rs.Io.{Outcome, ok, err, panic, IoWrapError}
use rs.Io.Bytes.{be16}
use rs.Io.Stream.{BitReader, BitWriter}
use rs.Avtp.Pdu.{Avtpdu, AvtpduError, read, write}

abbrev pub ether_type : ℕ
ether_type = 0x22f0

-- The errors of the socket are the parameter's; `send_none` is the error for `send_to`'s `None`.
pub data EthernetSenderError (SocketError : Type 0) : Type 0 where
  serialize : IoWrapError AvtpduError → EthernetSenderError SocketError
  send_none : EthernetSenderError SocketError
  send_failed : SocketError → EthernetSenderError SocketError

-- The buffer for frames is emptied at the start of each call, so no call sees what it held.
pub record EthernetAvtpSender (Tx : Type 0) : Type 0 where
  pub tx : Tx
  pub src_mac : List ℕ
  pub dst_mac : List ℕ

-- The Ethernet II header.
unfoldable pub ethernet_header : {Tx : Type 0} → EthernetAvtpSender Tx → List ℕ
ethernet_header s = s.dst_mac ++ (s.src_mac ++ be16 ether_type)

-- `DataLinkSender::send_to` is the parameter.
module _ {Tx SocketError : Type 0}
    (send_to : Tx → List ℕ → Tx × Option (Outcome SocketError (Unit {0}))) ⦃w : BitWriter⦄ where
  unfoldable pub transmit :
      EthernetAvtpSender Tx
      → List ℕ
      → EthernetAvtpSender Tx × Outcome (EthernetSenderError SocketError) (Unit {0})
  transmit s frame = go (send_to s.tx frame)
    where
      go :
          Tx × Option (Outcome SocketError (Unit {0}))
          → EthernetAvtpSender Tx × Outcome (EthernetSenderError SocketError) (Unit {0})
      go (tx, none) = (record s { tx = tx }, err send_none)
      go (tx, some (ok u)) = (record s { tx = tx }, ok tt)
      go (tx, some (err e)) = (record s { tx = tx }, err (send_failed e))
      go (tx, some panic) = (record s { tx = tx }, panic)

  unfoldable pub send :
      EthernetAvtpSender Tx
      → Avtpdu
      → EthernetAvtpSender Tx × Outcome (EthernetSenderError SocketError) (Unit {0})
  send s packet = elim (write packet (ethernet_header s)) [
    | ok frame ↦ transmit s frame
    | err e ↦ (s, err (serialize e))
    | panic ↦ (s, panic)
  ]

pub data EthernetReceiverError (SocketError : Type 0) : Type 0 where
  receive : SocketError → EthernetReceiverError SocketError
  parse : IoWrapError AvtpduError → EthernetReceiverError SocketError

-- The big-endian number in the first two octets.
abbrev pub first_u16 : List ℕ → Option ℕ
first_u16 (hi ∷ lo ∷ rest) = some (hi * 256 + lo)
first_u16 _ = none

-- The payload of an AVTP frame; the others are skipped.
unfoldable pub avtp_payload : List ℕ → Option (List ℕ)
avtp_payload frame = if ltb (length frame) 14 then none else elim (first_u16 (drop 12 frame)) [
  | none ↦ none
  | some ethertype ↦ if ethertype == ether_type then some (drop 14 frame) else none
]

-- `rx.next()` gives the next of the frames and errors to come; the loop waits where there are none.
-- `on_frame_received` is a parameter with its own state.
module _ {SocketError Closure Metadata : Type 0} (on_frame_received : Closure → Closure × Metadata)
    ⦃r : BitReader⦄ where
  unfoldable pub recv_next_with :
      Closure
      → List (Outcome SocketError (List ℕ))
      → Option (
          Closure
          × List (Outcome SocketError (List ℕ))
          × Outcome (EthernetReceiverError SocketError) (Metadata × Avtpdu))
  recv_next_with c [] = none
  recv_next_with c (err e ∷ rx) = some (c, rx, err (receive e))
  recv_next_with c (panic ∷ rx) = some (c, rx, panic)
  recv_next_with c (ok frame ∷ rx) =
      let later = recv_next_with c rx in
      elim (avtp_payload frame) [
        | none ↦ later
        | some payload ↦
            let (c', metadata) = on_frame_received c in
            some (
              c',
              rx,
              elim (read payload) [
                | ok packet ↦ ok (metadata, packet)
                | err e ↦ err (parse e)
                | panic ↦ panic
              ],
            )
      ]
