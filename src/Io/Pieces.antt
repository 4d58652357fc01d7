-- ===== src/Io/Pieces.antt =====
-- How reads and writes of whole bytes compose: what a chain takes off the front of its input, what
-- it writes, how far it gets, and which chains cannot panic.
use rs.Prelude.{
  ℕ, ◌+◌, ◌≤◌, ◌≡◌, ◌≢◌, refl, ap, ◌∙◌, List, [], ◌++◌, Option, none, some, arith, length,
  length-append, append_assoc, append-nil, Bool, true, false, if◌then◌else◌,
}
use rs.Io.{Outcome, ok, err, panic, IoError, M, ◌>>=◌, ◌>>◌, pure, lift, hoist, map_err}
use rs.Io.Octets.{
  Source, Sink, read_exact, write_all, read_exact-append, read_exact-ok, read_exact_total,
  write_all-append,
}

abbrev pub source : List ℕ → IoError → Source
source bs ending = record { bytes = bs; ending = ending }

-- The chain takes exactly these bytes, whatever follows them, and returns this value.
pub record Takes {E A : Type 0} (m : M Source E A) (bs : List ℕ) (a : A) : Type 0 where
  pub run :
      (rest : List ℕ) (ending : IoError)
      → m (source (bs ++ rest) ending) ≡ ok (a, source rest ending)

pub Takes-pure : {E A : Type 0} (a : A) → Takes (pure {E = E} a) [] a
Takes-pure a = record { run = λ rest ending. refl }

pub Takes-hoist : {E A : Type 0} (o : Outcome E A) {a : A} → o ≡ ok a → Takes (hoist o) [] a
Takes-hoist o e = record { run = λ rest ending. rw (e, hoist) refl }

pub Takes-bind :
    {E A B : Type 0} {m : M Source E A} (f : A → M Source E B) {xs ys : List ℕ} {a : A} {b : B}
    → Takes m xs a
    → Takes (f a) ys b
    → Takes (m >>= f) (xs ++ ys) b
Takes-bind f {xs} {ys} p q = record {
  run = λ rest ending.
      rw (append_assoc xs ys rest, p.run (ys ++ rest) ending, ◌>>=◌) (q.run rest ending);
}

-- A last step that reads nothing.
pub Takes-last :
    {E A B : Type 0} {m : M Source E A} (f : A → M Source E B) {xs : List ℕ} {a : A} {b : B}
    → Takes m xs a
    → Takes (f a) [] b
    → Takes (m >>= f) xs b
Takes-last f p q = record { run = λ rest ending. rw (p.run rest ending, ◌>>=◌) (q.run rest ending) }

pub Takes-lift :
    {E F A : Type 0} (g : E → F) {m : M Source E A} {bs : List ℕ} {a : A}
    → Takes m bs a
    → Takes (lift g m) bs a
Takes-lift g p = record { run = λ rest ending. rw (p.run rest ending, map_err) refl }

pub Takes-read_exact : (n : ℕ) (bs : List ℕ) → length bs ≡ n → Takes (read_exact n) bs bs
Takes-read_exact n bs e = record {
  run = λ rest ending. rw (← e) (read_exact-append bs rest ending);
}

-- The chain does what one write of these bytes does, on every writer.
pub record Emits (m : M Sink IoError (Unit {0})) (bs : List ℕ) : Type 0 where
  pub run : (s : Sink) → m s ≡ write_all bs s

pub Emits-write_all : (bs : List ℕ) → Emits (write_all bs) bs
Emits-write_all bs = record { run = λ s. refl }

pub Emits-nil : Emits (pure tt) []
unfolding write_all
Emits-nil = record { run = λ s. go s.written s.room }
  where
    go :
        (w : List ℕ) (r : Option ℕ)
        → pure tt (record { written = w; room = r })
          ≡ write_all [] (record { written = w; room = r })
    go w none = rw (append-nil w) refl
    go w (some n) = rw (append-nil w) (ground arith)

pub Emits-then :
    {m n : M Sink IoError (Unit {0})} {xs ys : List ℕ}
    → Emits m xs
    → Emits n ys
    → Emits (m >> n) (xs ++ ys)
Emits-then {m} {n} {xs} {ys} p q = record {
  run = λ s. first s (write_all xs s) refl ∙ write_all-append xs ys s;
}
  where
    first :
        (s : Sink) (o : Outcome IoError (Unit {0} × Sink))
        → write_all xs s ≡ o
        → (m >> n) s ≡ (write_all xs >> write_all ys) s
    first s (ok (u, s')) e = rw (◌>>◌, p.run s, e) (q.run s')
    first s (err x) e = rw (◌>>◌, p.run s, e) refl
    first s panic e = rw (◌>>◌, p.run s, e) refl

-- The chain leaves at least `n` bytes fewer to read.
pub record Shortens {E A : Type 0} (m : M Source E A) (n : ℕ) : Type 0 where
  pub run :
      (s : Source) (a : A) (s' : Source) → m s ≡ ok (a, s') → length s'.bytes + n ≤ length s.bytes

pub Shortens-read_exact : (n : ℕ) → Shortens (read_exact n) n
Shortens-read_exact n = record {
  run = λ s xs s' e.
      let (split, len, _) = read_exact-ok n s e in
      omega (arith, ap length split, length-append xs s'.bytes, len);
}

pub Shortens-pure : {E A : Type 0} (a : A) → Shortens (pure {E = E} a) 0
Shortens-pure a = record { run = λ s b s' e. let same : s ≡ s' = cc in rw same (omega arith) }

pub Shortens-fail : {E A : Type 0} (x : E) (n : ℕ) → Shortens {A = A} (λ s. err x) n
Shortens-fail x n = record { run = λ s b s' e. absurd (cc) }

pub Shortens-hoist : {E A : Type 0} (o : Outcome E A) → Shortens (hoist o) 0
Shortens-hoist (ok a) = Shortens-pure a
Shortens-hoist (err x) = Shortens-fail x 0
Shortens-hoist panic = record { run = λ s b s' e. absurd (cc) }

pub Shortens-lift :
    {E F A : Type 0} (g : E → F) {m : M Source E A} {n : ℕ} → Shortens m n → Shortens (lift g m) n
Shortens-lift {F} {A} g {m} {n} p = record { run = λ s a s' e. go s a s' (m s) refl e }
  where
    go :
        (s : Source) (a : A) (s' : Source) (o : Outcome _ (A × Source))
        → m s ≡ o
        → map_err g o ≡ ok (a, s')
        → length s'.bytes + n ≤ length s.bytes
    go s a s' (ok (b, t)) e k = p.run s a s' (e ∙ cc)
    go s a s' (err x) e k = absurd (cc)
    go s a s' panic e k = absurd (cc)

pub Shortens-bind :
    {E A B : Type 0} {m : M Source E A} (f : A → M Source E B) {n k : ℕ}
    → Shortens m n
    → ((a : A) → Shortens (f a) k)
    → Shortens (m >>= f) (n + k)
Shortens-bind {E} {A} {B} {m} f {n} {k} p q = record { run = λ s b s' e. go s b s' (m s) refl e }
  where
    go :
        (s : Source) (b : B) (s' : Source) (o : Outcome E (A × Source))
        → m s ≡ o
        → elim o as (λ w. Outcome E (B × Source)) [
          | ok (a, t) ↦ f a t
          | err x ↦ err x
          | panic ↦ panic
        ]
          ≡ ok (b, s')
        → length s'.bytes + (n + k) ≤ length s.bytes
    go s b s' (ok (a, t)) e h =
        let here = p.run s a t e in let there = (q a).run t b s' h in omega arith
    go s b s' (err x) e h = absurd (cc)
    go s b s' panic e h = absurd (cc)

pub Shortens-if :
    {E A : Type 0} (b : Bool) {m k : M Source E A} {n : ℕ}
    → Shortens m n
    → Shortens k n
    → Shortens (if b then m else k) n
Shortens-if true p q = p
Shortens-if false p q = q

-- The chain never panics.
pub record Calm {E A : Type 0} (m : M Source E A) : Type 0 where
  pub run : (s : Source) → m s ≢ panic

pub Calm-read_exact : (n : ℕ) → Calm (read_exact n)
Calm-read_exact n = record { run = read_exact_total n }

pub Calm-pure : {E A : Type 0} (a : A) → Calm (pure {E = E} a)
Calm-pure a = record { run = λ s e. cc }

pub Calm-fail : {E A : Type 0} (x : E) → Calm {A = A} (λ s. err x)
Calm-fail x = record { run = λ s e. cc }

pub Calm-hoist : {E A : Type 0} (o : Outcome E A) → o ≢ panic → Calm (hoist o)
Calm-hoist (ok a) h = record { run = λ s e. cc }
Calm-hoist (err x) h = record { run = λ s e. cc }
Calm-hoist panic h = absurd (h refl)

pub Calm-lift : {E F A : Type 0} (g : E → F) {m : M Source E A} → Calm m → Calm (lift g m)
Calm-lift {E} {A} g {m} p = record { run = λ s. go s (m s) refl }
  where
    go : (s : Source) (o : Outcome E (A × Source)) → m s ≡ o → map_err g o ≢ panic
    go s (ok a) e = λ k. cc
    go s (err x) e = λ k. cc
    go s panic e = absurd (p.run s e)

pub Calm-bind :
    {E A B : Type 0} {m : M Source E A} (f : A → M Source E B)
    → Calm m
    → ((a : A) → Calm (f a))
    → Calm (m >>= f)
Calm-bind {E} {A} {m} f p q = record { run = λ s. go s (m s) refl }
  where
    go : (s : Source) (o : Outcome E (A × Source)) → m s ≡ o → (m >>= f) s ≢ panic
    go s (ok (a, t)) e = rw (◌>>=◌, e) ((q a).run t)
    go s (err x) e = rw (◌>>=◌, e) (λ k. cc)
    go s panic e = absurd (p.run s e)

pub Calm-if :
    {E A : Type 0} (b : Bool) {m k : M Source E A} → Calm m → Calm k → Calm (if b then m else k)
Calm-if true p q = p
Calm-if false p q = q
