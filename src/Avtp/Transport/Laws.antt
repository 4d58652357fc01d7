-- ===== src/Avtp/Transport/Laws.antt =====
-- What Ethernet frames deliver (src/avtp/transport/ethernet.rs).
use rs.Prelude.{ℕ, ◌<◌, ◌≡◌, ◌≢◌, ◌⊎◌, List, [], ◌∷◌, length, drop, All, some}
use rs.Io.{Outcome, ok, IsByte}
use rs.Avtp.Transport.{EthernetAvtpSender, ether_type, first_u16}

-- Two addresses of six octets.
pub record IsSender {Tx : Type 0} (s : EthernetAvtpSender Tx) : Type 0 where
  pub dst_octets : length s.dst_mac ≡ 6
  pub src_octets : length s.src_mac ≡ 6
  pub dst_bytes : All IsByte s.dst_mac
  pub src_bytes : All IsByte s.src_mac

-- Frames that are not AVTP: too short for a header, or of another type.
abbrev pub IsForeign : List ℕ → Type 0
IsForeign f = (length f < 14) ⊎ (first_u16 (drop 12 f) ≢ some ether_type)

-- Frames to come, without errors, and what comes after them.
abbrev pub frames :
    {SocketError : Type 0}
    → List (List ℕ)
    → List (Outcome SocketError (List ℕ))
    → List (Outcome SocketError (List ℕ))
frames [] rest = rest
frames (f ∷ fs) rest = ok f ∷ frames fs rest
