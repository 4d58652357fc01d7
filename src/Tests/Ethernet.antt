-- ===== src/Tests/Ethernet.antt =====
-- A packet that is sent and received over Ethernet (src/avtp/transport/ethernet.rs).
use rs.Prelude.{ℕ, ◌+◌, List, [], ◌∷◌, Option, some}
use rs.Io.{Outcome, ok, IoError}
use rs.Avtp.Transport.{EthernetAvtpSender}
use rs.Tests.Memory.{list_reader, list_writer}

-- A socket that counts what it sends, and a closure that counts its calls.
abbrev count_sent : ℕ → List ℕ → ℕ × Option (Outcome IoError (Unit {0}))
count_sent n f = (n + 1, some (ok tt))

abbrev count_calls : ℕ → ℕ × ℕ
count_calls n = (n + 1, n)

abbrev sender : EthernetAvtpSender ℕ
sender = record {
  tx = 0;
  src_mac = 2 ∷ 0 ∷ 0 ∷ 0 ∷ 0 ∷ 7 ∷ [];
  dst_mac = 0x91 ∷ 0xe0 ∷ 0xf0 ∷ 0 ∷ 0xfe ∷ 0 ∷ [];
}

abbrev nothing_else : List (Outcome IoError (List ℕ))
nothing_else = []
