-- ===== src/Io/Outcomes.antt =====
-- Chains of fallible results: what a chain that succeeds passed through, and which chains cannot
-- panic.
use rs.Prelude.{◌≡◌, ◌≢◌, refl}
use rs.Io.{Outcome, ok, err, panic, bind, map_err}

pub ok_unique : {E A : Type 0} (o : Outcome E A) {a b : A} → o ≡ ok a → o ≡ ok b → a ≡ b
ok_unique (ok c) h k = cc
ok_unique (err c) h k = absurd cc
ok_unique panic h k = absurd cc

pub bind_ok :
    {E A B : Type 0} (o : Outcome E A) (f : A → Outcome E B) {b : B}
    → bind o f ≡ ok b
    → (a : A) × (o ≡ ok a) × (f a ≡ ok b)
bind_ok (ok a) f h = (a, refl, h)
bind_ok (err e) f h = absurd (cc)
bind_ok panic f h = absurd (cc)

pub bind_run :
    {E A B : Type 0} {o : Outcome E A} (f : A → Outcome E B) {a : A} {p : Outcome E B}
    → o ≡ ok a
    → f a ≡ p
    → bind o f ≡ p
bind_run f e h = rw (e, bind) h

pub bind_total :
    {E A B : Type 0} (o : Outcome E A) (f : A → Outcome E B)
    → o ≢ panic
    → ((a : A) → o ≡ ok a → f a ≢ panic)
    → bind o f ≢ panic
bind_total (ok a) f h k = k a refl
bind_total (err e) f h k = λ q. cc
bind_total panic f h k = absurd (h refl)

pub map_err_ok :
    {E F A : Type 0} (g : E → F) (o : Outcome E A) {a : A} → map_err g o ≡ ok a → o ≡ ok a
map_err_ok g (ok a) h = cc
map_err_ok g (err e) h = absurd (cc)
map_err_ok g panic h = absurd (cc)

pub map_err_run :
    {E F A : Type 0} (g : E → F) {o : Outcome E A} {a : A} → o ≡ ok a → map_err g o ≡ ok a
map_err_run g e = rw (e, map_err) refl

pub map_err_total : {E F A : Type 0} (g : E → F) (o : Outcome E A) → o ≢ panic → map_err g o ≢ panic
map_err_total g (ok a) h = λ q. cc
map_err_total g (err e) h = λ q. cc
map_err_total g panic h = absurd (h refl)
