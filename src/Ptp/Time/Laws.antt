-- ===== src/Ptp/Time/Laws.antt =====
-- What holds of clock times (src/ptp_phc/time.rs).
use rs.Prelude.{
  ◌≢◌, Bool-cases, ltb→lt, ℕ, ◌+◌, ◌*◌, ◌/◌, ◌%◌, ◌^◌, ◌<◌, ◌≡◌, ◌⊎◌, inl, inr, refl, sym, ap, ◌∙◌,
  none, some, arith, Option-cases, ltb,
}
use mathlib.Core.Path.{subst}
use mathlib.Core.Option.{some-injective}
use rs.Prelude.Int.{ℤ, pos, negsuc, pos_part, neg_part, ◌+ℤ◌, ◌*ℤ◌, ltb_ℤ, +ℤ_parts, eq_of_parts}
use rs.Prelude.Machine.{
  checked, saturated, div_euclid, rem_euclid, IsSigned, checked-some, checked-IsSigned,
  checked-none,
}
use rs.Io.{ok, panic}
use rs.Ptp.Time.{PtpTime, IsValid, new, from_ns, from_ns_i128, as_nanos, lt_time}

abbrev giga : ℕ
giga = 1_000_000_000

-- The exact number of nanoseconds.
unfoldable pub exact_nanos : PtpTime → ℤ
exact_nanos t = t.seconds *ℤ pos giga +ℤ pos t.nanoseconds

-- On the values of the types `as_nanos` never saturates.
pub as_nanos_exact : (t : PtpTime) → IsValid t → as_nanos t ≡ exact_nanos t
unfolding as_nanos exact_nanos saturated ◌+ℤ◌ ◌*ℤ◌
as_nanos_exact t v = go t.seconds v.seconds_fit
  where
    go :
        (s : ℤ)
        → IsSigned 63 s
        → saturated 127 (saturated 127 (s *ℤ pos giga) +ℤ pos t.nanoseconds)
          ≡ s *ℤ pos giga +ℤ pos t.nanoseconds
    go (pos n) h = ground (arith, v.normalized)
    go (negsuc n) h = ground (arith, v.normalized)

euclid :
    (z : ℤ)
    → (pos_part z + giga * neg_part (div_euclid z giga)
        ≡ neg_part z + giga * pos_part (div_euclid z giga) + rem_euclid z giga)
      × (rem_euclid z giga < giga)
unfolding div_euclid rem_euclid
euclid (pos n) = omega arith
euclid (negsuc n) = omega arith

exact_parts :
    (t : PtpTime)
    → pos_part (exact_nanos t) + giga * neg_part t.seconds
      ≡ neg_part (exact_nanos t) + giga * pos_part t.seconds + t.nanoseconds
unfolding exact_nanos ◌*ℤ◌
exact_parts t = go t.seconds t.nanoseconds
  where
    go :
        (s : ℤ) (n : ℕ)
        → pos_part (s *ℤ pos giga +ℤ pos n) + giga * neg_part s
          ≡ neg_part (s *ℤ pos giga +ℤ pos n) + giga * pos_part s + n
    go (pos m) n = ground (arith, +ℤ_parts (pos m *ℤ pos giga) (pos n))
    go (negsuc m) n = ground (arith, +ℤ_parts (negsuc m *ℤ pos giga) (pos n))

-- The two parts of an integer are not both positive.
one_part : (z : ℤ) → (pos_part z ≡ 0) ⊎ (neg_part z ≡ 0)
one_part (pos n) = inr refl
one_part (negsuc n) = inl refl

same_division :
    (t : PtpTime)
    → t.nanoseconds < giga
    → (div_euclid (exact_nanos t) giga ≡ t.seconds)
      × (rem_euclid (exact_nanos t) giga ≡ t.nanoseconds)
same_division t h =
    let e = exact_parts t in
    let (d, r) = euclid (exact_nanos t) in
    (
      eq_of_parts _ _
          (omega (arith, one_part t.seconds, one_part (div_euclid (exact_nanos t) giga))),
      omega (arith, one_part t.seconds, one_part (div_euclid (exact_nanos t) giga)),
    )

time_of : ℤ → ℕ → PtpTime
time_of s n = record { seconds = s; nanoseconds = n }

from_some :
    (z s : ℤ)
    → checked 63 (div_euclid z giga) ≡ some s
    → from_ns_i128 z ≡ some (time_of s (rem_euclid z giga % 2 ^ 32))
unfolding from_ns_i128 time_of
from_some z s e = rw (e, from_ns_i128) refl

from_none : (z : ℤ) → checked 63 (div_euclid z giga) ≡ none → from_ns_i128 z ≡ none
unfolding from_ns_i128
from_none z e = rw (e, from_ns_i128) refl

-- The nanoseconds of a valid time give the time back.
pub from_ns_i128-as_nanos : (t : PtpTime) → IsValid t → from_ns_i128 (as_nanos t) ≡ some t
unfolding time_of
from_ns_i128-as_nanos t v =
    let (d, r) = same_division t v.normalized in
    ap from_ns_i128 (as_nanos_exact t v)
    ∙ from_some (exact_nanos t) t.seconds
        (ap (checked 63) d ∙ checked-some 63 t.seconds v.seconds_fit)
    ∙ ap (λ n. some (time_of t.seconds n)) (ap (λ n. n % 2 ^ 32) r ∙ omega (arith, v.normalized))

divided : ℤ → PtpTime
divided z = time_of (div_euclid z giga) (rem_euclid z giga % 2 ^ 32)

exact_of_division : (z : ℤ) → exact_nanos (divided z) ≡ z
unfolding divided time_of
exact_of_division z =
    let (d, r) = euclid z in eq_of_parts _ _ (omega (arith, exact_parts (divided z)))

divided-IsValid : (z : ℤ) → IsSigned 63 (div_euclid z giga) → IsValid (divided z)
unfolding divided time_of
divided-IsValid z h = record { seconds_fit = h; normalized = omega (arith, (euclid z).1) }

from_divided : (z : ℤ) → IsSigned 63 (div_euclid z giga) → from_ns_i128 z ≡ some (divided z)
unfolding divided
from_divided z h = from_some z (div_euclid z giga) (checked-some 63 (div_euclid z giga) h)

-- A time that `from_ns_i128` returns is valid, and has the given nanoseconds.
pub as_nanos-from_ns_i128 :
    (z : ℤ) (t : PtpTime) → from_ns_i128 z ≡ some t → IsValid t × (as_nanos t ≡ z)
as_nanos-from_ns_i128 z t h = elim (Option-cases (checked 63 (div_euclid z giga))) [
  | inl e ↦ cc (h, from_none z e)
  | inr (s, e) ↦
      let fit = (checked-IsSigned 63 (div_euclid z giga) s e).1 in
      let same : divided z ≡ t = some-injective _ _ (sym (from_divided z fit) ∙ h) in
      subst (λ u. IsValid u × (as_nanos u ≡ z)) same
        (
          divided-IsValid z fit,
          as_nanos_exact (divided z) (divided-IsValid z fit) ∙ exact_of_division z,
        )
]

-- Where `from_ns_i128` returns nothing, no valid time has these nanoseconds.
pub from_ns_i128-none : (z : ℤ) → from_ns_i128 z ≡ none → (t : PtpTime) → IsValid t → as_nanos t ≢ z
from_ns_i128-none z h t v e = cc (from_ns_i128-as_nanos t v, ap from_ns_i128 e, h)

-- Of nanoseconds in the range of an i64, `from_ns_i128` returns the time that `from_ns` makes.
pub from_ns_i128-from_ns : (z : ℤ) → IsSigned 63 z → from_ns_i128 z ≡ some (from_ns z)
unfolding from_ns divided time_of
from_ns_i128-from_ns z h = from_divided z (quotient_fits z h)
  where
    quotient_fits : (z : ℤ) → IsSigned 63 z → IsSigned 63 (div_euclid z giga)
    quotient_fits (pos n) h = unfold div_euclid in omega arith
    quotient_fits (negsuc n) h = unfold div_euclid in omega arith

-- The derived order of valid times is the order of their nanoseconds.
pub lt_time-as_nanos :
    (a b : PtpTime) → IsValid a → IsValid b → lt_time a b ≡ ltb_ℤ (as_nanos a) (as_nanos b)
lt_time-as_nanos a b va vb = rw (as_nanos_exact a va, as_nanos_exact b vb) exact_order
  where
    exact_order : lt_time a b ≡ ltb_ℤ (exact_nanos a) (exact_nanos b)
    exact_order =
        unfold lt_time in ground (arith, exact_parts a, exact_parts b, va.normalized, vb.normalized)

exact_time : (s : ℤ) (n : ℕ) → exact_nanos (time_of s n) ≡ s *ℤ pos giga +ℤ pos n
unfolding exact_nanos time_of
exact_time s n = refl

carry :
    (s : ℤ) (n : ℕ)
    → exact_nanos (time_of (s +ℤ pos (n / giga)) (n % giga)) ≡ exact_nanos (time_of s n)
unfolding time_of
carry s n = eq_of_parts _ _ (
    omega (
      arith,
      exact_parts (time_of (s +ℤ pos (n / giga)) (n % giga)),
      exact_parts (time_of s n),
      +ℤ_parts s (pos (n / giga)),
    ))

-- Of an i64 of seconds and a u32 of nanoseconds, `PtpTime::new` returns a valid time of as many
-- nanoseconds in all, or it panics, and then the carried seconds are out of the range of an i64.
pub new_cases :
    (s : ℤ) (n : ℕ)
    → IsSigned 63 s
    → n < 2 ^ 32
    → ((t : PtpTime) × (new s n ≡ ok t) × IsValid t × (as_nanos t ≡ s *ℤ pos giga +ℤ pos n))
      ⊎ ((new s n ≡ panic) × (¬ IsSigned 63 (s +ℤ pos (n / giga))))
unfolding new time_of
new_cases s n hs hn = elim (Bool-cases (ltb n giga)) [
  | inl small ↦
      let t = time_of s n in
      let v : IsValid t = record { seconds_fit = hs; normalized = ltb→lt _ _ small } in
      inl (t, rw (small, new) refl, v, as_nanos_exact t v ∙ exact_time s n)
  | inr large ↦ elim (Option-cases (checked 63 (s +ℤ pos (n / giga)))) [
    | inl over ↦ inr (rw (large, new) (rw over refl), checked-none 63 _ over)
    | inr (secs, fits) ↦
        let (same, fit) = checked-IsSigned 63 (s +ℤ pos (n / giga)) secs fits in
        let t = time_of (s +ℤ pos (n / giga)) (n % giga) in
        let v : IsValid t = record { seconds_fit = fit; normalized = omega arith } in
        inl (
          t,
          rw (large, new) (rw fits (ap (λ u. ok (time_of u (n % giga))) same)),
          v,
          as_nanos_exact t v ∙ carry s n ∙ exact_time s n,
        )
  ]
]
