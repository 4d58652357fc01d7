-- ===== src/Proto/State/Snapshot/Scan.antt =====
-- src/ptp_proto/state.rs: the blocks of one kind, and the loop as one dataset sees it.
use Prim.Native.String.{String}
use rs.Prelude.{
  ℕ, ◌≡◌, refl, true, false, List, [], ◌∷◌, Option, none, some, if◌then◌else◌, Bool-cases, inl, inr,
}
use rs.Prelude.Text.{codes, same}
use rs.Io.{Outcome, ok, bind}
use rs.Io.Outcomes.{bind_ok, bind_run, map_err_ok}
use rs.Proto.State.{FieldParseError, SnapshotParseError}
use rs.Proto.State.Blocks.{Block}
use rs.Proto.State.Snapshot.{once}

-- The lines of the blocks of one kind.
unfoldable pub blocks_of : String → List Block → List (List (List ℕ))
blocks_of name [] = []
blocks_of name ((kind, lines) ∷ bs) =
    let rest = blocks_of name bs in if same kind (codes name) then lines ∷ rest else rest

-- The loop as one dataset sees it.
module _ {A : Type 0} (name : String) (parse : List (List ℕ) → Outcome FieldParseError A) where
  unfoldable pub pick : Option A → Block → Outcome SnapshotParseError (Option A)
  pick o (kind, lines) =
      if same kind (codes name) then bind (once name o (parse lines)) (λ a. ok (some a)) else ok o

  unfoldable pub scan : Option A → List Block → Outcome SnapshotParseError (Option A)
  scan o [] = ok o
  scan o (b ∷ bs) = bind (pick o b) (λ q. scan q bs)

  pub once_ok :
      (o : Option A) (r : Outcome FieldParseError A) {a : A}
      → once name o r ≡ ok a
      → (o ≡ none) × (r ≡ ok a)
  unfolding once
  once_ok none r e = (refl, map_err_ok _ r e)
  once_ok (some x) r e = absurd (cc)

  pub once_run : (r : Outcome FieldParseError A) {a : A} → r ≡ ok a → once name none r ≡ ok a
  unfolding once
  once_run r e = rw e refl

  pub pick_ok :
      (o : Option A) (kind : List ℕ) (lines : List (List ℕ)) {q : Option A}
      → pick o (kind, lines) ≡ ok q
      → same kind (codes name) ≡ true
      → (a : A) × (o ≡ none) × (parse lines ≡ ok a) × (q ≡ some a)
  unfolding pick
  pick_ok o kind lines {q} e t =
      let (a, here, there) =
        bind_ok (once name o (parse lines)) (λ a. ok (some a)) {b = q} (rw t at e) in
      let (fresh, read) = once_ok o (parse lines) here in (a, fresh, read, cc)

  pub pick_run :
      (kind : List ℕ) (lines : List (List ℕ)) {a : A}
      → same kind (codes name) ≡ true
      → parse lines ≡ ok a
      → pick none (kind, lines) ≡ ok (some a)
  unfolding pick
  pick_run kind lines t e = rw t (bind_run (λ a. ok (some a)) (once_run (parse lines) e) refl)

  pub pick_other :
      (o : Option A) (kind : List ℕ) (lines : List (List ℕ))
      → same kind (codes name) ≡ false
      → pick o (kind, lines) ≡ ok o
  unfolding pick
  pick_other o kind lines t = rw t refl

  -- Without a block of its kind a dataset stays as it is.
  pub scan_absent : (o : Option A) (bs : List Block) → blocks_of name bs ≡ [] → scan o bs ≡ ok o
  unfolding scan blocks_of
  scan_absent o [] h = refl
  scan_absent o ((kind, lines) ∷ bs) h = elim (Bool-cases (same kind (codes name))) [
    | inl t ↦ absurd (let bad = rw t at h in cc)
    | inr t ↦ bind_run _ (pick_other o kind lines t) (scan_absent o bs (rw t at h))
  ]

  -- A dataset that is there is the last one.
  pub scan_full :
      (x : A) (bs : List Block) {q : Option A}
      → scan (some x) bs ≡ ok q
      → (blocks_of name bs ≡ []) × (q ≡ some x)
  unfolding scan blocks_of
  scan_full x [] e = (refl, cc)
  scan_full x ((kind, lines) ∷ bs) {q} e =
      let (o, here, there) = bind_ok (pick (some x) (kind, lines)) (λ o. scan o bs) {b = q} e in
      elim (Bool-cases (same kind (codes name))) [
        | inl t ↦ let (a, fresh, _, _) = pick_ok (some x) kind lines {q = o} here t in absurd (cc)
        | inr t ↦
            let kept : o ≡ some x = cc (pick_other (some x) kind lines t) in
            let (none_left, same_value) = scan_full x bs {q = q} (rw kept at there) in
            (rw t none_left, same_value)
      ]

  pub scan_one :
      (bs : List Block) {a : A}
      → scan none bs ≡ ok (some a)
      → (lines : List (List ℕ)) × (blocks_of name bs ≡ lines ∷ []) × (parse lines ≡ ok a)
  unfolding scan blocks_of
  scan_one [] e = absurd (cc)
  scan_one ((kind, lines) ∷ bs) {a} e =
      let (o, here, there) = bind_ok (pick none (kind, lines)) (λ o. scan o bs) {b = some a} e in
      elim (Bool-cases (same kind (codes name))) [
        | inl t ↦
            let (x, fresh, read, value) = pick_ok none kind lines {q = o} here t in
            let (none_left, same_value) = scan_full x bs {q = some a} (rw value at there) in
            let same_a : a ≡ x = cc in (lines, rw (t, none_left) refl, rw same_a read)
        | inr t ↦
            let kept : o ≡ none = cc (pick_other none kind lines t) in
            let (ls, one, read) = scan_one bs {a = a} (rw kept at there) in (ls, rw t one, read)
      ]

  pub scan_found :
      (bs : List Block) (lines : List (List ℕ)) {a : A}
      → blocks_of name bs ≡ lines ∷ []
      → parse lines ≡ ok a
      → scan none bs ≡ ok (some a)
  unfolding scan blocks_of
  scan_found [] lines h e = absurd (cc)
  scan_found ((kind, ls) ∷ bs) lines {a} h e = elim (Bool-cases (same kind (codes name))) [
    | inl t ↦
        let both : ls ∷ blocks_of name bs ≡ lines ∷ [] = rw t at h in
        let first : ls ≡ lines = cc in
        let rest : blocks_of name bs ≡ [] = cc in
        bind_run _ (pick_run kind ls t (rw first e)) (scan_absent (some a) bs rest)
    | inr t ↦ bind_run _ (pick_other none kind ls t) (scan_found bs lines (rw t at h) e)
  ]
