-- ===== src/Io/Run.antt =====
-- How the steps of a codec compose: what a chain of reads consumes, what a chain of writes
-- produces, and which chains cannot panic.
use rs.Prelude.{
  ◌∷◌, ◌⊎◌, inl, inr, arith, ◌+◌, ◌≡◌, refl, ap, ◌∙◌, ◌≢◌, Bool, List, ◌++◌, append_assoc,
  append-nil, [], length, length-append,
}
use native.Mathlib.Nat.{add_assoc}
use rs.Io.{Outcome, ok, err, panic, M, ◌>>=◌, ◌>>◌, pure, lift, hoist, map_err}
use rs.Io.Stream.{BitReader, BitWriter, Consumes, Produces}

-- Where a list that is cut short ends: in the first part of the whole, or in the second.
split_short :
    (l xs ys : List Bool) (x : Bool) (missing : List Bool)
    → l ++ (x ∷ missing) ≡ xs ++ ys
    → ((y : Bool) × (more : List Bool) × (l ++ (y ∷ more) ≡ xs))
      ⊎ ((z : List Bool) × (l ≡ xs ++ z) × (z ++ (x ∷ missing) ≡ ys))
split_short l [] ys x missing h = inr (l, refl, h)
split_short [] (c ∷ xs) ys x missing h = inl (c, xs, refl)
split_short (d ∷ l) (c ∷ xs) ys x missing h = elim (split_short l xs ys x missing (cc)) [
  | inl (y, more, e) ↦ inl (y, more, cc)
  | inr (z, e, e') ↦ inr (z, cc, e')
]

module _ ⦃b : BitReader⦄ where
  open b use {Reader, remaining}

  -- The chain consumes exactly these bits, whatever follows, and returns this value; where the
  -- input ends within these bits it fails with this error.
  pub record Reads {E A : Type 0} (eof : E) (m : M Reader E A) (bits : List Bool) (a : A)
      : Type 0 where
    pub run : (rest : List Bool) → Consumes remaining m bits a rest
    pub short :
        (r : Reader) (x : Bool) (missing : List Bool)
        → remaining r ++ (x ∷ missing) ≡ bits
        → m r ≡ err eof

  pub Reads-bind :
      {E A B : Type 0} {eof : E} {m : M Reader E A} (f : A → M Reader E B) {xs ys : List Bool}
      {a : A} {c : B}
      → Reads eof m xs a
      → Reads eof (f a) ys c
      → Reads eof (m >>= f) (xs ++ ys) c
  Reads-bind f {xs} {ys} p q = record {
    run = λ rest r h.
        let (r1, e1, h1) = p.run (ys ++ rest) r (h ∙ append_assoc xs ys rest) in
        let (r2, e2, h2) = q.run rest r1 h1 in (r2, rw (e1, ◌>>=◌) e2, h2);
    short = λ r x missing h. elim (split_short (remaining r) xs ys x missing h) [
      | inl (y, more, e) ↦ rw (p.short r y more e, ◌>>=◌) refl
      | inr (z, e, e') ↦
          let (r1, e1, h1) = p.run z r e in
          rw (e1, ◌>>=◌) (q.short r1 x missing (ap (λ l. l ++ (x ∷ missing)) h1 ∙ e'))
    ];
  }

  not_short : {A : Type 0} (l : List Bool) (x : Bool) (more : List Bool) → l ++ (x ∷ more) ≡ [] → A
  not_short l x more h = absurd (omega (arith, ap length h, length-append l (x ∷ more)))

  -- A last step that reads nothing, and the value that is made of what was read.
  pub Reads-then :
      {E A B : Type 0} {eof : E} {m : M Reader E A} (f : A → M Reader E B) {xs : List Bool} {a : A}
      {c : B}
      → Reads eof m xs a
      → Reads eof (f a) [] c
      → Reads eof (m >>= f) xs c
  Reads-then f {xs} p q = rw (append-nil) at (Reads-bind f p q)

  pub Reads-hoist :
      {E A : Type 0} {eof : E} (o : Outcome E A) {a : A} → o ≡ ok a → Reads eof (hoist o) [] a
  Reads-hoist o e = record {
    run = λ rest r h. (r, rw e refl, h);
    short = λ r x more h. not_short (remaining r) x more h;
  }

  pub Reads-map :
      {E A B : Type 0} {eof : E} {m : M Reader E A} (g : A → B) {xs : List Bool} {a : A}
      → Reads eof m xs a
      → Reads eof (m >>= λ x. pure (g x)) xs (g a)
  Reads-map {eof} g {a} p =
      Reads-then (λ x. pure (g x)) p
        (record {
          run = λ rest r h. (r, refl, h);
          short = λ r x more h. not_short (remaining r) x more h;
        })

  pub Reads-lift :
      {E F A : Type 0} (g : E → F) {eof : E} {m : M Reader E A} {xs : List Bool} {a : A}
      → Reads eof m xs a
      → Reads (g eof) (lift g m) xs a
  Reads-lift g p = record {
    run = λ rest r h. let (r', e, h') = p.run rest r h in (r', rw e refl, h');
    short = λ r x more h. rw (p.short r x more h) refl;
  }

  -- The chain does not panic on any input.
  pub record NoPanic {E A : Type 0} (m : M Reader E A) : Type 0 where
    pub run : (r : Reader) → m r ≢ panic

  pub NoPanic-bind :
      {E A B : Type 0} {m : M Reader E A} (f : A → M Reader E B)
      → NoPanic m
      → ((a : A) → NoPanic (f a))
      → NoPanic (m >>= f)
  NoPanic-bind {m} f p q = record { run = λ r. go r (m r) refl }
    where
      go :
          (r : Reader)
          → (o : Outcome _ _) → m r ≡ o
          → (elim o [ ok (a, s') ↦ f a s' | err e ↦ err e | panic ↦ panic ]) ≢ panic
      go r (ok (a, s)) e = (q a).run s
      go r (err x) e = λ h. cc
      go r panic e = absurd (p.run r e)

  pub NoPanic-pure : {E A : Type 0} (a : A) → NoPanic {E = E} (pure a)
  NoPanic-pure a = record { run = λ r h. cc }

  pub NoPanic-lift :
      {E F A : Type 0} (g : E → F) {m : M Reader E A} → NoPanic m → NoPanic (lift g m)
  NoPanic-lift g {m} p = record { run = λ r. go r (m r) refl }
    where
      go : (r : Reader) (o : Outcome _ _) → m r ≡ o → map_err g o ≢ panic
      go r (ok (a, s)) e = λ h. cc
      go r (err x) e = λ h. cc
      go r panic e = absurd (p.run r e)

  pub NoPanic-hoist : {E A : Type 0} (o : Outcome E A) → o ≢ panic → NoPanic (hoist o)
  NoPanic-hoist (ok a) h = record { run = λ r e. cc }
  NoPanic-hoist (err x) h = record { run = λ r e. cc }
  NoPanic-hoist panic h = absurd (h refl)

module _ ⦃b : BitWriter⦄ where
  open b use {Writer, written, HasRoom}

  -- The chain appends exactly these bits.
  pub record Writes {E : Type 0} (m : M Writer E (Unit {0})) (bits : List Bool) : Type 0 where
    pub run : Produces written HasRoom m bits

  pub Writes-bind :
      {E : Type 0} {m n : M Writer E (Unit {0})} {xs ys : List Bool}
      → Writes m xs
      → Writes n ys
      → Writes (m >> n) (xs ++ ys)
  Writes-bind {xs} {ys} p q = record {
    run = λ k w h.
        let room : HasRoom w (length xs + (length ys + k)) =
          rw (length-append xs ys, add_assoc) at h in
        let (w1, e1, h1, k1) = p.run (length ys + k) w room in
        let (w2, e2, h2, k2) = q.run k w1 k1 in
        (w2, rw (e1, ◌>>◌) e2, h2 ∙ ap (λ l. l ++ ys) h1 ∙ append_assoc (written w) xs ys, k2);
  }

  pub Writes-lift :
      {E F : Type 0} (g : E → F) {m : M Writer E (Unit {0})} {xs : List Bool}
      → Writes m xs
      → Writes (lift g m) xs
  Writes-lift g p = record {
    run = λ k w h. let (w', e, h', k') = p.run k w h in (w', rw e refl, h', k');
  }

  -- A result that is computed between two writes.
  pub Writes-hoist :
      {E A : Type 0} (o : Outcome E A) (k : A → M Writer E (Unit {0})) {a : A} {xs : List Bool}
      → o ≡ ok a
      → Writes (k a) xs
      → Writes (hoist o >>= k) xs
  Writes-hoist o k e p = record { run = λ n w h. rw (e, ◌>>=◌) (p.run n w h) }
