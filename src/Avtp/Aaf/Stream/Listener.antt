-- ===== src/Avtp/Aaf/Stream/Listener.antt =====
-- What the listener returns and keeps (src/avtp/formats/aaf/stream.rs).
use rs.Prelude.{
  ℕ, ◌+◌, ◌%◌, ◌^◌, ◌<◌, ◌≡◌, ◌≢◌, ◌⊎◌, ◌↔◌, inl, inr, refl, sym, ap, ◌∙◌, Bool, true, false, List,
  [], ◌∷◌, arith, Option, none, some, ==_iff, ◌==◌, if◌then◌else◌,
}
use mathlib.Core.Path.{subst}
use mathlib.Core.Option.{some-injective}
use rs.Io.{Outcome, ok, err, panic}
use rs.Io.Outcomes.{ok_unique}
use rs.Io.Stream.{BitReader}
use rs.Avtp.StreamId.{StreamId}
use rs.Avtp.Headers.Stream as Headers
use rs.Avtp.Headers.Stream.{StreamHeader}
use rs.Avtp.Pdu.{Avtpdu, stream_pdu, control_pdu, alternative_pdu}
use rs.Avtp.Aaf.Pcm.{AafPcm}
use rs.Avtp.Aaf.Packet.{Aaf, pcm, aes3, InvalidAaf, from_header}
use rs.Avtp.Aaf.Packet.Parse.{from_header_total}
use rs.Avtp.Aaf.Stream.{
  AafPcmListener, ReceivedPcm, StreamFilter, any, mac_only, exact, matches, octets_eq, accept,
  process, lost,
}

both : (c d : Bool) → (if c then d else false) ≡ true → (c ≡ true) × (d ≡ true)
both true d h = (refl, h)
both false d h = absurd cc

octets_iff : (xs ys : List ℕ) → (octets_eq xs ys ≡ true) ↔ (xs ≡ ys)
octets_iff [] [] = (λ h. refl, λ h. refl)
octets_iff [] (y ∷ ys) = (λ h. absurd cc, λ h. absurd cc)
octets_iff (x ∷ xs) [] = (λ h. absurd cc, λ h. absurd cc)
octets_iff (x ∷ xs) (y ∷ ys) =
    let (there, back) = octets_iff xs ys in
    (
      λ h.
          let (c, d) = both (x == y) (octets_eq xs ys) h in
          let e : x ≡ y = (==_iff x y).0 c in let k : xs ≡ ys = there d in cc,
      λ h. let e : x ≡ y = cc in let k : xs ≡ ys = cc in rw ((==_iff x y).1 e) (back k),
    )

-- The streams that a filter is meant to accept.
abbrev pub Accepts : StreamFilter → StreamId → Type 0
Accepts any s = Unit
Accepts (mac_only mac) s = s.mac_address ≡ mac
Accepts (exact id) s = s ≡ id

-- A filter matches a stream ID exactly if it is the filter for all streams, the one for the ID's
-- address, or the one for this ID.
pub matches_iff : (f : StreamFilter) (s : StreamId) → (matches f s ≡ true) ↔ Accepts f s
unfolding matches
matches_iff any s = (λ h. tt, λ h. refl)
matches_iff (mac_only mac) s = octets_iff s.mac_address mac
matches_iff (exact id) s = (
  λ h.
      let (c, d) = both (octets_eq s.mac_address id.mac_address) (s.unique_id == id.unique_id) h in
      let e : s.mac_address ≡ id.mac_address = (octets_iff _ _).0 c in
      let k : s.unique_id ≡ id.unique_id = (==_iff _ _).0 d in
      same s.mac_address id.mac_address s.unique_id id.unique_id e k,
  λ h.
      rw ((octets_iff s.mac_address id.mac_address).1 (ap (λ t. t.mac_address) h))
        ((==_iff s.unique_id id.unique_id).1 (ap (λ t. t.unique_id) h)),
)
  where
    same :
        (m m' : List ℕ) (u u' : ℕ)
        → m ≡ m'
        → u ≡ u'
        → Path StreamId
            (record { mac_address = m; unique_id = u })
            (record { mac_address = m'; unique_id = u' })
    same m m' u u' e k = cc

-- What the listener returns of an audio packet.
unfoldable pub received : Option ℕ → Aaf → AafPcm → ReceivedPcm
received expected a p = record {
  avtp_timestamp = a.stream_data.avtp_timestamp;
  seq_num = a.stream_data.sequence_num;
  payload_be = p.payload;
  sample_rate = p.nominal_sample_rate;
  channels = p.channels_per_frame;
  bit_depth = p.bit_depth;
  format = p.format;
  packets_lost = lost expected a.stream_data.sequence_num;
}

abbrev pub counted : AafPcmListener → ℕ → AafPcmListener
counted l seq = record l { expected_seq = some ((seq + 1) % 2 ^ 8) }

accept_run :
    (l : AafPcmListener) (a : Aaf) (p : AafPcm)
    → a.format_data ≡ pcm p
    → matches l.filter a.stream_data.stream_id ≡ true
    → accept l a ≡ (counted l a.stream_data.sequence_num, some (received l.expected_seq a p))
unfolding accept received
accept_run l a p e m = rw (accept, m) (rw e refl)

module _ ⦃r : BitReader⦄ where
  -- A packet that parses as audio of an accepted stream is returned, and counted.
  pub process_run :
      (l : AafPcmListener) (h : StreamHeader) (a : Aaf) (p : AafPcm)
      → from_header h ≡ ok a
      → a.format_data ≡ pcm p
      → matches l.filter a.stream_data.stream_id ≡ true
      → process l (stream_pdu h)
        ≡ (counted l a.stream_data.sequence_num, ok (some (received l.expected_seq a p)))
  unfolding process
  process_run l h a p e f m = rw (process, e) (rw (accept_run l a p f m) refl)

  -- The packets that the listener returns audio of.
  pub record IsAudio (l : AafPcmListener) (pdu : Avtpdu) : Type 0 where
    pub header : StreamHeader
    pub aaf : Aaf
    pub audio : AafPcm
    pub is_stream : pdu ≡ stream_pdu header
    pub parsed : from_header header ≡ ok aaf
    pub is_pcm : aaf.format_data ≡ pcm audio
    pub accepted : matches l.filter aaf.stream_data.stream_id ≡ true

  ignored :
      (l : AafPcmListener) (h : StreamHeader) (a : Aaf)
      → from_header h ≡ ok a
      → accept l a ≡ (l, none)
      → process l (stream_pdu h) ≡ (l, ok none)
  unfolding process
  ignored l h a e q = rw (process, e) (rw q refl)

  header_cases :
      (l : AafPcmListener) (h : StreamHeader)
      → (o : Outcome InvalidAaf Aaf) → from_header h ≡ o
      → ((q : Outcome InvalidAaf (Option ReceivedPcm)) × (process l (stream_pdu h) ≡ (l, q))
          × ((x : ReceivedPcm) → q ≢ ok (some x)))
        ⊎ IsAudio l (stream_pdu h)
  unfolding process accept
  header_cases l h (err x) e = inl (err x, rw (process, e) refl, λ y k. cc)
  header_cases l h panic e = inl (panic, rw (process, e) refl, λ y k. cc)
  header_cases l h (ok a) e = go a.format_data (matches l.filter a.stream_data.stream_id) refl refl
    where
      go :
          (v : _) (m : Bool)
          → a.format_data ≡ v
          → matches l.filter a.stream_data.stream_id ≡ m
          → ((q : Outcome InvalidAaf (Option ReceivedPcm)) × (process l (stream_pdu h) ≡ (l, q))
              × ((x : ReceivedPcm) → q ≢ ok (some x)))
            ⊎ IsAudio l (stream_pdu h)
      go v false f k =
          inl (ok none, ignored l h a e (unfold accept in rw (accept, k) refl), λ y q. cc)
      go (aes3 b) true f k =
          inl (ok none, ignored l h a e (unfold accept in rw (accept, k) (rw f refl)), λ y q. cc)
      go (pcm p) true f k = inr (record {
        header = h;
        aaf = a;
        audio = p;
        is_stream = refl;
        parsed = e;
        is_pcm = f;
        accepted = k;
      })

  -- For every packet, either the listener stays as it was and returns no audio, or the packet is a
  -- stream packet that parses as PCM audio and whose stream the filter accepts.
  pub process_cases :
      (l : AafPcmListener) (pdu : Avtpdu)
      → ((q : Outcome InvalidAaf (Option ReceivedPcm)) × (process l pdu ≡ (l, q))
          × ((x : ReceivedPcm) → q ≢ ok (some x)))
        ⊎ IsAudio l pdu
  unfolding process
  process_cases l (stream_pdu h) = header_cases l h (from_header h) refl
  process_cases l (control_pdu h) = inl (ok none, refl, λ x k. cc)
  process_cases l (alternative_pdu h) = inl (ok none, refl, λ x k. cc)

  process-some :
      (l k : AafPcmListener) (pdu : Avtpdu) (x : ReceivedPcm)
      → process l pdu ≡ (k, ok (some x))
      → (k ≡ counted l x.seq_num) × (x.packets_lost ≡ lost l.expected_seq x.seq_num)
  unfolding received
  process-some l k pdu x e = elim (process_cases l pdu) [
    | inl (q, f, n) ↦ absurd (n x (ap (λ z. z.1) (sym f ∙ e)))
    | inr a ↦
        let run =
          ap (process l) a.is_stream
          ∙ process_run l a.header a.aaf a.audio a.parsed a.is_pcm a.accepted in
        let same : received l.expected_seq a.aaf a.audio ≡ x =
          some-injective _ _ (ok_unique {E = InvalidAaf} _ refl (ap (λ z. z.1) (sym run ∙ e))) in
        (
          ap (λ z. z.0) (sym e ∙ run) ∙ ap (λ y. counted l y.seq_num) same,
          subst (λ y. y.packets_lost ≡ lost l.expected_seq y.seq_num) same refl,
        )
  ]

  gap : (s n : ℕ) → n < 2 ^ 8 → lost (some ((s + 1) % 2 ^ 8)) ((s + 1 + n) % 2 ^ 8) ≡ n
  unfolding lost
  gap s n h = omega arith

  -- If the listener returns audio of a packet, and of a next one that it processes right after it,
  -- whose sequence number is `n + 1` further modulo 256 with `n` below 256, then it reports `n`
  -- packets lost.
  pub process_lost :
      (l k m : AafPcmListener) (first second : Avtpdu) (x y : ReceivedPcm) (n : ℕ)
      → process l first ≡ (k, ok (some x))
      → process k second ≡ (m, ok (some y))
      → n < 2 ^ 8
      → y.seq_num ≡ (x.seq_num + 1 + n) % 2 ^ 8
      → y.packets_lost ≡ n
  process_lost l k m first second x y n e f h s =
      let (ek, _) = process-some l k first x e in
      let (_, ly) = process-some k m second y f in
      ly
      ∙ ap (λ z. lost z.expected_seq y.seq_num) ek
      ∙ ap (lost (some ((x.seq_num + 1) % 2 ^ 8))) s
      ∙ gap x.seq_num n h

  -- Processing a stream packet with a valid header does not panic.
  pub process_total :
      (l : AafPcmListener) (h : StreamHeader)
      → Headers.IsValid h
      → (process l (stream_pdu h)).1 ≢ panic
  unfolding process
  process_total l h v = go (from_header h) refl
    where
      go : (o : Outcome InvalidAaf Aaf) → from_header h ≡ o → (process l (stream_pdu h)).1 ≢ panic
      go panic e = absurd (from_header_total h v e)
      go (err x) e = unfold process in rw (process, e) (λ k. cc)
      go (ok a) e = unfold process in rw (process, e) (λ k. cc)
