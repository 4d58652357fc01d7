-- ===== src/Io/Loop.antt =====
-- Loops that read until a step says that it is done, on fuel.
use rs.Prelude.{ℕ, zero, suc, ◌≤◌, ◌<◌, ◌≡◌, ◌≢◌, refl, ◌∙◌, Option, none, some, arith}
use rs.Io.{Outcome, ok, err, panic, M}

-- One more round, or what the loop returns.
pub data Turn (P B : Type 0) : Type 0 where
  again : P → Turn P B
  done : B → Turn P B

-- `loop { … }` over a stream: `none` is a loop that the fuel does not bring to its end.
unfoldable pub iterate :
    {S E P B : Type 0} → (P → M S E (Turn P B)) → ℕ → P → S → Option (Outcome E (B × S))
iterate step zero p s = none
iterate step (suc n) p s = elim (step p s) [
  | ok (again p', s') ↦ iterate step n p' s'
  | ok (done b, s') ↦ some (ok (b, s'))
  | err e ↦ some (err e)
  | panic ↦ some panic
]

-- What follows a loop, where the loop ends.
unfoldable pub after_loop :
    {S E A B : Type 0}
    → Option (Outcome E (A × S))
    → (A → S → Option (Outcome E (B × S)))
    → Option (Outcome E (B × S))
after_loop none f = none
after_loop (some (ok (a, s))) f = f a s
after_loop (some (err e)) f = some (err e)
after_loop (some panic) f = some panic

module _ {S E P B : Type 0} (step : P → M S E (Turn P B)) where
  pub iterate-again :
      (n : ℕ) (p : P) (s : S) {p' : P} {s' : S}
      → step p s ≡ ok (again p', s')
      → iterate step (suc n) p s ≡ iterate step n p' s'
  unfolding iterate
  iterate-again n p s e = rw (e, iterate) refl

  pub iterate-done :
      (n : ℕ) (p : P) (s : S) {b : B} {s' : S}
      → step p s ≡ ok (done b, s')
      → iterate step (suc n) p s ≡ some (ok (b, s'))
  unfolding iterate
  iterate-done n p s e = rw (e, iterate) refl

  -- A loop whose every further round makes something smaller ends.
  pub iterate_ends :
      (size : S → ℕ)
      → ((p : P) (s : S) (p' : P) (s' : S) → step p s ≡ ok (again p', s') → size s' < size s)
      → (n : ℕ) (p : P) (s : S) → size s < n
      → iterate step n p s ≢ none
  unfolding iterate
  iterate_ends size shrinks zero p s h = absurd (omega arith)
  iterate_ends size shrinks (suc n) p s h =
      go (λ p' s' k. iterate_ends size shrinks n p' s' k) (step p s) refl
    where
      go :
          ((p' : P) (s' : S) → size s' < n → iterate step n p' s' ≢ none)
          → (o : Outcome E (Turn P B × S)) → step p s ≡ o
          → iterate step (suc n) p s ≢ none
      go ih (ok (again p', s')) e = rw (e, iterate) (ih p' s' (omega (arith, shrinks p s p' s' e)))
      go ih (ok (done b, s')) e = rw (e, iterate) (λ k. cc)
      go ih (err x) e = rw (e, iterate) (λ k. cc)
      go ih panic e = rw (e, iterate) (λ k. cc)

  -- No round panics, so the loop does not.
  pub iterate_total :
      ((p : P) (s : S) → step p s ≢ panic)
      → (n : ℕ) (p : P) (s : S) → iterate step n p s ≢ some panic
  unfolding iterate
  iterate_total total zero p s = λ k. cc
  iterate_total total (suc n) p s = go (λ p' s'. iterate_total total n p' s') (step p s) refl
    where
      go :
          ((p' : P) (s' : S) → iterate step n p' s' ≢ some panic)
          → (o : Outcome E (Turn P B × S)) → step p s ≡ o
          → iterate step (suc n) p s ≢ some panic
      go ih (ok (again p', s')) e = rw (e, iterate) (ih p' s')
      go ih (ok (done b, s')) e = rw (e, iterate) (λ k. cc)
      go ih (err x) e = rw (e, iterate) (λ k. cc)
      go ih panic e = absurd (total p s e)

  -- What is left after the loop, where no round makes it larger.
  pub iterate_bounded :
      (size : S → ℕ)
      → ((p : P) (s : S) (t : Turn P B) (s' : S) → step p s ≡ ok (t, s') → size s' ≤ size s)
      → (n : ℕ) (p : P) (s : S) (b : B) (s' : S) → iterate step n p s ≡ some (ok (b, s'))
      → size s' ≤ size s
  unfolding iterate
  iterate_bounded size shrinks zero p s b s' h = absurd (cc)
  iterate_bounded size shrinks (suc n) p s b s' h =
      go (λ p' t k. iterate_bounded size shrinks n p' t b s' k) (step p s) refl h
    where
      go :
          ((p' : P) (t : S) → iterate step n p' t ≡ some (ok (b, s')) → size s' ≤ size t)
          → (o : Outcome E (Turn P B × S)) → step p s ≡ o
          → elim o as (λ _. Option (Outcome E (B × S))) [
            | ok (again p', t) ↦ iterate step n p' t
            | ok (done c, t) ↦ some (ok (c, t))
            | err e ↦ some (err e)
            | panic ↦ some panic
          ]
            ≡ some (ok (b, s'))
          → size s' ≤ size s
      go ih (ok (again p', t)) e k = omega (arith, ih p' t k, shrinks p s (again p') t e)
      go ih (ok (done c, t)) e k = let same : t ≡ s' = cc in rw (← same) (shrinks p s (done c) t e)
      go ih (err x) e k = absurd (cc)
      go ih panic e k = absurd (cc)

  -- With whatever fuel the loop ends, this is what it gives.
  pub record Gives (p : P) (s : S) (o : Outcome E (B × S)) : Type 0 where
    pub run : (n : ℕ) → iterate step n p s ≢ none → iterate step n p s ≡ some o

  pub Gives-again :
      (p : P) (s : S) {p' : P} {s' : S} {o : Outcome E (B × S)}
      → step p s ≡ ok (again p', s')
      → Gives p' s' o
      → Gives p s o
  Gives-again p s {p'} {s'} {o} e g = record { run = go }
    where
      go : (n : ℕ) → iterate step n p s ≢ none → iterate step n p s ≡ some o
      go zero h = absurd (h (unfold iterate in refl))
      go (suc n) h = iterate-again n p s e ∙ g.run n (λ q. h (iterate-again n p s e ∙ q))

  pub Gives-done :
      (p : P) (s : S) {b : B} {s' : S} → step p s ≡ ok (done b, s') → Gives p s (ok (b, s'))
  Gives-done p s {b} {s'} e = record { run = go }
    where
      go : (n : ℕ) → iterate step n p s ≢ none → iterate step n p s ≡ some (ok (b, s'))
      go zero h = absurd (h (unfold iterate in refl))
      go (suc n) h = iterate-done n p s e
