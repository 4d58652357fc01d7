-- ===== src/Avtp/Aaf/Pcm/Laws.antt =====
-- What uncompressed audio packets keep (src/avtp/formats/aaf/pcm.rs).
use rs.Prelude.{
  ℕ, ◌*◌, ◌/◌, ◌%◌, ◌^◌, ◌<◌, ◌≤◌, ◌≡◌, ◌≢◌, ◌↔◌, refl, sym, ap, ◌∙◌, List, length, All, some,
  arith, inl, inr, Bool-cases, ◌==◌, if◌then◌else◌,
}
use rs.Io.{Outcome, ok, err, panic, IsByte, bind}
use rs.Io.Outcomes.{bind_ok, bind_run, bind_total}
use mathlib.Core.Path.{subst}
use rs.Avtp.Aaf.Pcm.{
  AafPcm, PcmFormat, SampleRate, InvalidPcmAaf, IsValid, new, validated_bit_depth,
  validate_payload_size, word_size, float_32_bit, rate, from_hz, rate_try_from, protocol_value,
  channels_per_frame_zero,
}

-- `from_hz` returns a sample rate exactly for the number of hertz that `rate` gives of it.
pub from_hz_iff : (hz : ℕ) (s : SampleRate) → (from_hz hz ≡ some s) ↔ (rate s ≡ some hz)
unfolding from_hz rate
from_hz_iff hz s = ground arith

-- The conversion of a number to a sample rate returns a rate exactly for the rate's protocol
-- value.
pub rate_try_from_iff :
    (raw : ℕ) (s : SampleRate) → (rate_try_from raw ≡ ok s) ↔ (raw ≡ protocol_value s)
unfolding rate_try_from protocol_value
rate_try_from_iff raw s = ground arith

pub rate_try_from_reserved : (raw : ℕ) → 10 < raw → rate_try_from raw ≡ err raw
unfolding rate_try_from
rate_try_from_reserved raw h = ground arith

depth_sound :
    (d e : ℕ) (f : PcmFormat)
    → validated_bit_depth d f ≡ ok e
    → (e ≡ d) × (0 < d) × (f ≡ float_32_bit → d ≡ 32) × ((w : ℕ) → word_size f ≡ some w → d ≤ w)
unfolding validated_bit_depth word_size
depth_sound d e PcmFormat.user h = (ground arith, ground arith, λ q. cc, λ w q. cc)
depth_sound d e float_32_bit h =
    (ground arith, ground arith, λ q. ground arith, λ w q. ground arith)
depth_sound d e PcmFormat.int_32_bit h = (ground arith, ground arith, λ q. cc, λ w q. ground arith)
depth_sound d e PcmFormat.int_24_bit h = (ground arith, ground arith, λ q. cc, λ w q. ground arith)
depth_sound d e PcmFormat.int_16_bit h = (ground arith, ground arith, λ q. cc, λ w q. ground arith)

depth_complete :
    (d : ℕ) (f : PcmFormat)
    → 0 < d
    → (f ≡ float_32_bit → d ≡ 32)
    → ((w : ℕ) → word_size f ≡ some w → d ≤ w)
    → validated_bit_depth d f ≡ ok d
unfolding validated_bit_depth word_size
depth_complete d PcmFormat.user h k l = ground arith
depth_complete d float_32_bit h k l = ground (arith, k refl)
depth_complete d PcmFormat.int_32_bit h k l = ground (arith, l 32 refl)
depth_complete d PcmFormat.int_24_bit h k l = ground (arith, l 24 refl)
depth_complete d PcmFormat.int_16_bit h k l = ground (arith, l 16 refl)

size_complete :
    (f : PcmFormat) (len ch : ℕ)
    → len < 2 ^ 16
    → 0 < ch
    → ((w : ℕ) → word_size f ≡ some w → len % (w / 8 * ch) ≡ 0)
    → validate_payload_size f len ch ≡ ok tt
unfolding validate_payload_size word_size
size_complete PcmFormat.user len ch h hc k = ground arith
size_complete float_32_bit len ch h hc k = ground (arith, k 32 refl)
size_complete PcmFormat.int_32_bit len ch h hc k = ground (arith, k 32 refl)
size_complete PcmFormat.int_24_bit len ch h hc k = ground (arith, k 24 refl)
size_complete PcmFormat.int_16_bit len ch h hc k = ground (arith, k 16 refl)

size_sound :
    (f : PcmFormat) (len ch : ℕ) (u : Unit {0})
    → validate_payload_size f len ch ≡ ok u
    → (len < 2 ^ 16) × ((w : ℕ) → word_size f ≡ some w → len % (w / 8 * ch) ≡ 0)
unfolding validate_payload_size word_size
size_sound PcmFormat.user len ch u h = (ground arith, λ w q. cc)
size_sound float_32_bit len ch u h = (ground arith, λ w q. ground arith)
size_sound PcmFormat.int_32_bit len ch u h = (ground arith, λ w q. ground arith)
size_sound PcmFormat.int_24_bit len ch u h = (ground arith, λ w q. ground arith)
size_sound PcmFormat.int_16_bit len ch u h = (ground arith, λ w q. ground arith)

size_total : (f : PcmFormat) (len ch : ℕ) → 0 < ch → validate_payload_size f len ch ≢ panic
unfolding validate_payload_size word_size
size_total f len ch h e = ground arith

depth_total : (d : ℕ) (f : PcmFormat) → validated_bit_depth d f ≢ panic
unfolding validated_bit_depth word_size
depth_total d f e = ground arith

-- The packet with these fields.
unfoldable pub made : SampleRate → ℕ → PcmFormat → ℕ → List ℕ → AafPcm
made r c f d payload = record {
  nominal_sample_rate = r;
  channels_per_frame = c;
  format = f;
  bit_depth = d;
  payload = payload;
}

-- The checks that stand between the depth and the result.
sized : SampleRate → ℕ → PcmFormat → List ℕ → ℕ → Outcome InvalidPcmAaf AafPcm
sized r c f payload depth =
    if c == 0
    then err channels_per_frame_zero
    else bind (validate_payload_size f (length payload) c) λ _. ok (made r c f depth payload)

new-sized :
    (r : SampleRate) (c : ℕ) (f : PcmFormat) (d : ℕ) (payload : List ℕ)
    → new r c f d payload ≡ bind (validated_bit_depth d f) (sized r c f payload)
unfolding new sized made
new-sized r c f d payload = refl

has_channels :
    (r : SampleRate) (c : ℕ) (f : PcmFormat) (payload : List ℕ) (d : ℕ)
    → 0 < c
    → sized r c f payload d
      ≡ bind (validate_payload_size f (length payload) c) λ _. ok (made r c f d payload)
unfolding sized
has_channels r c f payload d h = ground arith

sized_sound :
    (r : SampleRate) (c : ℕ) (f : PcmFormat) (payload : List ℕ) (d : ℕ) (p : AafPcm)
    → sized r c f payload d ≡ ok p
    → (0 < c)
      × (bind (validate_payload_size f (length payload) c) (λ _. ok (made r c f d payload)) ≡ ok p)
unfolding sized
sized_sound r c f payload d p h = ground arith

sound :
    (r : SampleRate) (c : ℕ) (f : PcmFormat) (d : ℕ) (payload : List ℕ) (p : AafPcm)
    → c < 2 ^ 10
    → d < 2 ^ 8
    → All IsByte payload
    → new r c f d payload ≡ ok p
    → (p ≡ made r c f d payload) × IsValid (made r c f d payload)
unfolding made
sound r c f d payload p hc hd hb h =
    let (e, depth, sizes) =
      bind_ok (validated_bit_depth d f) (sized r c f payload)
        (sym (new-sized r c f d payload) ∙ h) in
    let (same, positive, float, word) = depth_sound d e f depth in
    let (channels, rest) = sized_sound r c f payload e p sizes in
    let (u, size, result) =
      bind_ok (validate_payload_size f (length payload) c) (λ _. ok (made r c f e payload)) rest in
    let (len, frames) = size_sound f (length payload) c u size in
    (
      cc,
      record {
        channels_fit = hc;
        has_channels = channels;
        depth_fits = hd;
        has_depth = positive;
        float_depth = float;
        depth_in_word = word;
        payload_bytes = hb;
        payload_length = len;
        whole_frames = frames;
      },
    )

new_valid :
    (p : AafPcm)
    → IsValid p
    → new p.nominal_sample_rate p.channels_per_frame p.format p.bit_depth p.payload ≡ ok p
unfolding made
new_valid p v =
    new-sized _ _ _ _ _
    ∙ bind_run (sized p.nominal_sample_rate p.channels_per_frame p.format p.payload)
        (depth_complete p.bit_depth p.format v.has_depth v.float_depth v.depth_in_word)
        (has_channels _ _ _ _ _ v.has_channels
          ∙ bind_run _
              (size_complete p.format (length p.payload) p.channels_per_frame v.payload_length
                v.has_channels v.whole_frames)
              refl)

-- For channels, depth and payload in the ranges of their types, `AafPcm::new` returns a packet
-- exactly if it is the packet of these values and it is well-formed: some channels, a depth that
-- fits the sample word (32 for floats), and a payload below 2 ^ 16 octets of whole frames.
pub new_iff :
    (r : SampleRate) (c : ℕ) (f : PcmFormat) (d : ℕ) (payload : List ℕ) (p : AafPcm)
    → c < 2 ^ 10
    → d < 2 ^ 8
    → All IsByte payload
    → (new r c f d payload ≡ ok p) ↔ ((p ≡ made r c f d payload) × IsValid p)
unfolding made
new_iff r c f d payload p hc hd hb = (
  λ h. let (e, v) = sound r c f d payload p hc hd hb h in (e, subst IsValid (sym e) v),
  λ h. let (e, v) = h in new_valid (made r c f d payload) (subst IsValid e v) ∙ ap ok (sym e),
)

-- `new` gives a result or an error for all values.
pub new_total :
    (r : SampleRate) (c : ℕ) (f : PcmFormat) (d : ℕ) (payload : List ℕ)
    → new r c f d payload ≢ panic
new_total r c f d payload h =
    bind_total (validated_bit_depth d f) (sized r c f payload) (depth_total d f)
      (λ e _. sized_total e) (sym (new-sized r c f d payload) ∙ h)
  where
    sized_total : (e : ℕ) → sized r c f payload e ≢ panic
    sized_total e q = elim (Bool-cases (c == 0)) [
      | inl z ↦ unfold sized in ground arith
      | inr z ↦
          bind_total (validate_payload_size f (length payload) c) (λ _. ok (made r c f e payload))
            (size_total f (length payload) c (ground arith)) (λ _ _ k. cc)
            (sym (has_channels r c f payload e (ground arith)) ∙ q)
    ]
