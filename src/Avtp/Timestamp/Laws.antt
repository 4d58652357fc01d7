-- ===== src/Avtp/Timestamp/Laws.antt =====
-- What holds of presentation timestamps (src/avtp/timestamp.rs).
use rs.Prelude.{
  ℕ, Bool-cases, ltb→lt, ltb→le, ◌+◌, ◌*◌, ◌^◌, ◌≤◌, ◌<◌, ◌≡◌, ◌⊎◌, inl, inr, refl, sym, ap, ◌∙◌,
  some, arith, [], ◌∷◌, ltb,
}
use rs.Prelude.Int.{
  ℤ, pos, negsuc, pos_part, neg_part, ◌+ℤ◌, ◌-ℤ◌, ◌*ℤ◌, +ℤ_parts, -ℤ_parts, eq_of_parts,
}
use rs.Prelude.Machine.{div_euclid, rem_euclid, as_u64, distance, IsSigned}
use mathlib.Core.Path.{subst}
use rs.Io.{ok}
use rs.Ptp.Time.{PtpTime, as_nanos, from_ns_i128}
use rs.Ptp.Time as Time
use rs.Ptp.Time.Laws.{exact_nanos, as_nanos_exact, from_ns_i128-as_nanos}
use rs.Avtp.Timestamp.{
  AvtpTimestamp, wrapping_add, from_ptp_time, min_by_key, expanded_ns, expand_near,
}

abbrev wrap : ℕ
wrap = 4_294_967_296

-- The timestamp of a valid time, before or after the epoch, is its nanoseconds modulo 2 ^ 32.
pub from_ptp_time-mod :
    (t : PtpTime) → Time.IsValid t → from_ptp_time t ≡ rem_euclid (as_nanos t) wrap
from_ptp_time-mod t v = rw (as_nanos_exact t v) (go t.seconds v.seconds_fit)
  where
    go :
        (s : ℤ)
        → IsSigned 63 s
        → from_ptp_time (record { seconds = s; nanoseconds = t.nanoseconds })
          ≡ rem_euclid (exact_nanos (record { seconds = s; nanoseconds = t.nanoseconds })) wrap
    go (pos n) h =
        unfold from_ptp_time as_u64 exact_nanos rem_euclid ◌+ℤ◌ ◌*ℤ◌ in ground (arith, v.normalized)
    go (negsuc n) h =
        unfold from_ptp_time as_u64 exact_nanos rem_euclid ◌+ℤ◌ ◌*ℤ◌ in ground (arith, v.normalized)

euclid :
    (z : ℤ)
    → (pos_part z + wrap * neg_part (div_euclid z wrap)
        ≡ neg_part z + wrap * pos_part (div_euclid z wrap) + rem_euclid z wrap)
      × (rem_euclid z wrap < wrap)
unfolding div_euclid rem_euclid
euclid (pos n) = omega arith
euclid (negsuc n) = omega arith

distance_parts :
    (a b : ℤ)
    → (pos_part a + neg_part b + distance a b ≡ pos_part b + neg_part a)
      ⊎ (pos_part b + neg_part a + distance a b ≡ pos_part a + neg_part b)
unfolding distance
distance_parts a b = ground arith

-- The least of three candidates is one of them, and none is nearer.
least_of_three :
    (key : ℤ → ℕ) (a b c : ℤ)
    → let m = min_by_key key a (b ∷ c ∷ []) in
      ((m ≡ a) ⊎ ((m ≡ b) ⊎ (m ≡ c))) × (key m ≤ key a) × (key m ≤ key b) × (key m ≤ key c)
unfolding min_by_key
least_of_three key a b c = elim (Bool-cases (ltb (key b) (key a))) [
  | inl h ↦ rw h (elim (Bool-cases (ltb (key c) (key b))) [
    | inl k ↦ rw k (
      inr (inr refl),
      omega (arith, ltb→lt _ _ h, ltb→lt _ _ k),
      omega (arith, ltb→lt _ _ k),
      omega arith,
    )
    | inr k ↦
        rw k (inr (inl refl), omega (arith, ltb→lt _ _ h), omega arith, omega (arith, ltb→le _ _ k))
  ])
  | inr h ↦ rw h (elim (Bool-cases (ltb (key c) (key a))) [
    | inl k ↦ rw k (
      inr (inr refl),
      omega (arith, ltb→lt _ _ k),
      omega (arith, ltb→lt _ _ k, ltb→le _ _ h),
      omega arith,
    )
    | inr k ↦ rw k (inl refl, omega arith, omega (arith, ltb→le _ _ h), omega (arith, ltb→le _ _ k))
  ])
]

scaled_parts :
    (q : ℤ)
    → pos_part (q *ℤ pos wrap) + wrap * neg_part q ≡ neg_part (q *ℤ pos wrap) + wrap * pos_part q
unfolding ◌*ℤ◌
scaled_parts (pos n) = ground arith
scaled_parts (negsuc n) = ground arith

-- `z` is `ts` after whole windows.
abbrev InWindow : ℕ → ℤ → ℤ → Type 0
InWindow ts q z = pos_part z + wrap * neg_part q ≡ neg_part z + wrap * pos_part q + ts

base-InWindow : (ts : ℕ) (q : ℤ) → InWindow ts q (q *ℤ pos wrap +ℤ pos ts)
base-InWindow ts q = omega (arith, scaled_parts q, +ℤ_parts (q *ℤ pos wrap) (pos ts))

before-InWindow : (ts : ℕ) (q b : ℤ) → InWindow ts q b → InWindow ts (q -ℤ pos 1) (b -ℤ pos wrap)
before-InWindow ts q b h = omega (arith, h, -ℤ_parts q (pos 1), -ℤ_parts b (pos wrap))

after-InWindow : (ts : ℕ) (q b : ℤ) → InWindow ts q b → InWindow ts (q +ℤ pos 1) (b +ℤ pos wrap)
after-InWindow ts q b h = omega (arith, h, +ℤ_parts q (pos 1), +ℤ_parts b (pos wrap))

-- One of three candidates in adjacent windows is within half a window of the reference.
near :
    (ts : ℕ) (r b m : ℤ)
    → ts < wrap
    → InWindow ts (div_euclid r wrap) b
    → distance m r ≤ distance (b -ℤ pos wrap) r
    → distance m r ≤ distance b r
    → distance m r ≤ distance (b +ℤ pos wrap) r
    → distance m r ≤ 2_147_483_648
near ts r b m h w l c u =
    let (d, e) = euclid r in
    omega (
      arith,
      distance_parts b r,
      distance_parts (b -ℤ pos wrap) r,
      distance_parts (b +ℤ pos wrap) r,
      -ℤ_parts b (pos wrap),
      +ℤ_parts b (pos wrap),
    )

expanded_window :
    (ts : ℕ) (r : ℤ)
    → ts < wrap
    → ((q : ℤ) × InWindow ts q (expanded_ns ts r)) × (distance (expanded_ns ts r) r ≤ 2_147_483_648)
unfolding expanded_ns
expanded_window ts r h =
    let q = div_euclid r wrap in
    let b = q *ℤ pos wrap +ℤ pos ts in
    let w = base-InWindow ts q in
    let (which, l, c, u) = least_of_three (λ z. distance z r) (b -ℤ pos wrap) b (b +ℤ pos wrap) in
    (
      elim which [
        | inl e ↦ (q -ℤ pos 1, subst (InWindow ts (q -ℤ pos 1)) (sym e) (before-InWindow ts q b w))
        | inr (inl e) ↦ (q, subst (InWindow ts q) (sym e) w)
        | inr (inr e) ↦
            (q +ℤ pos 1, subst (InWindow ts (q +ℤ pos 1)) (sym e) (after-InWindow ts q b w))
      ],
      near ts r b _ h w l c u,
    )

window_rem : (ts : ℕ) (q z : ℤ) → ts < wrap → InWindow ts q z → rem_euclid z wrap ≡ ts
window_rem ts q z h w = let (d, e) = euclid z in omega (arith, h, w, d, e)

same_window :
    (ts : ℕ) (q p z y : ℤ) → InWindow ts q z → InWindow ts p y → distance z y < wrap → z ≡ y
same_window ts q p z y hz hy d = eq_of_parts _ _ (omega (arith, hz, hy, d, distance_parts z y))

-- The expansion of a 32-bit timestamp has the timestamp as its remainder modulo 2 ^ 32, and is at
-- most 2 ^ 31 nanoseconds away from the reference.
pub expanded_ns-nearest :
    (ts : AvtpTimestamp) (r : ℤ)
    → ts < 2 ^ 32
    → (rem_euclid (expanded_ns ts r) wrap ≡ ts) × (distance (expanded_ns ts r) r ≤ 2 ^ 31)
expanded_ns-nearest ts r h = let ((q, w), d) = expanded_window ts r h in (window_rem ts q _ h w, d)

expanded_unique : (z r : ℤ) → distance z r < 2 ^ 31 → expanded_ns (rem_euclid z wrap) r ≡ z
expanded_unique z r d =
    let (inside, below) = euclid z in
    let ts = rem_euclid z wrap in
    let ((q, w), e) = expanded_window ts r below in
    same_window ts q (div_euclid z wrap) _ z w inside (
      omega (
        arith,
        distance_parts z r,
        distance_parts (expanded_ns ts r) r,
        distance_parts (expanded_ns ts r) z,
      ))

expand_some :
    (ts : ℕ) (ref t : PtpTime)
    → from_ns_i128 (expanded_ns ts (as_nanos ref)) ≡ some t
    → expand_near ts ref ≡ ok t
unfolding expand_near
expand_some ts ref t e = rw (expand_near, e) refl

-- The timestamp of a valid time that is less than 2 ^ 31 nanoseconds away from the reference
-- expands near the reference to that time, without a panic.
pub expand_near-from_ptp_time :
    (t reference : PtpTime)
    → Time.IsValid t
    → distance (as_nanos t) (as_nanos reference) < 2 ^ 31
    → expand_near (from_ptp_time t) reference ≡ ok t
expand_near-from_ptp_time t reference v d = expand_some _ reference t (
    ap (λ ts. from_ns_i128 (expanded_ns ts (as_nanos reference))) (from_ptp_time-mod t v)
    ∙ ap from_ns_i128 (expanded_unique (as_nanos t) (as_nanos reference) d)
    ∙ from_ns_i128-as_nanos t v)

-- A presentation delay is added modulo 2 ^ 32: the sum is the timestamp of the delayed time.
pub wrapping_add-from_ptp_time :
    (t u : PtpTime) (delay : ℕ)
    → Time.IsValid t
    → Time.IsValid u
    → as_nanos u ≡ as_nanos t +ℤ pos delay
    → wrapping_add (from_ptp_time t) delay ≡ from_ptp_time u
wrapping_add-from_ptp_time t u delay vt vu e =
    rw (from_ptp_time-mod t vt, from_ptp_time-mod u vu, e) (shift (as_nanos t))
  where
    shift : (z : ℤ) → wrapping_add (rem_euclid z wrap) delay ≡ rem_euclid (z +ℤ pos delay) wrap
    shift z =
        let (a, b) = euclid z in
        let (c, d) = euclid (z +ℤ pos delay) in
        unfold wrapping_add in omega (arith, a, b, c, d, +ℤ_parts z (pos delay))
