-- ===== src/Proto/Instance/Laws.antt =====
-- src/ptp_proto/instance.rs: when a process is tracked, and what a snapshot rests on.

use rs.Prelude.{
  ℕ, ◌≡◌, ◌↔◌, ◌≢◌, refl, sym, ap, ◌∙◌, ◌⊎◌, inl, inr, true, List, Option, none, some, Bool-cases,
}
use rs.Io.{Outcome, ok, err, panic}
use rs.Proto.State.{
  PtpSnapshot, SnapshotParseError, missing_dataset, duplicate_dataset, dataset_error,
}
use rs.Proto.State.Snapshot.{parse_pmc_output}
use rs.Proto.Instance.{
  Os, Output, PtpQueryError, process_exited, process_not_running, PtpInstance, Call, after_try_wait,
  check_process, ensure_process_running, pmc_args, running_but, after_parse, after_decode,
  after_pmc, query, snapshot,
}

module _ (os : Os) where
  open os use {World, Child, Error, Status, Utf8Error, F64}

  abbrev pub Instance_ : Type 0
  Instance_ = PtpInstance os

  abbrev pub untracked : Instance_ → Instance_
  untracked i = record i { process = none }

  -- The instance is as it was, or the call reports that the process exited, and forgets it.
  abbrev pub Keeps : {A : Type 0} → Instance_ → Call os (PtpQueryError os) A → Type 0
  Keeps i c =
      ((c.1 ≡ i) × ((status : Status) → c.0 ≢ inl (process_exited status)))
      ⊎ ((c.1 ≡ untracked i) × ((status : Status) × (c.0 ≡ inl (process_exited status))))

  Keeps-after_try_wait :
      (i : Instance_) (r : (Error ⊎ Option Status) × World) → Keeps i (after_try_wait os i r)
  unfolding after_try_wait
  Keeps-after_try_wait i (inl e, w) = inl (refl, λ st k. cc)
  Keeps-after_try_wait i (inr (some status), w) = inr (refl, (status, refl))
  Keeps-after_try_wait i (inr none, w) = inl (refl, λ st k. cc)

  Keeps-ensure : (i : Instance_) (w : World) → Keeps i (ensure_process_running os i w)
  unfolding ensure_process_running
  Keeps-ensure i w = go i.process
    where
      go : (p : Option Child) → Keeps i (check_process os i p w)
      go none = unfold check_process in inl (refl, λ st k. cc)
      go (some c) = unfold check_process in Keeps-after_try_wait i (os.try_wait c w)

  Keeps-running_but :
      (i : Instance_) (e : PtpQueryError os) (c : Call os (PtpQueryError os) (Unit {0}))
      → ((status : Status) → e ≢ process_exited status)
      → Keeps i c
      → Keeps i (running_but os e c)
  unfolding running_but
  Keeps-running_but i e (inl x, j, w) q (inl (h, n)) = inl (h, λ st k. n st cc)
  Keeps-running_but i e (inl x, j, w) q (inr (h, (st, k))) = inr (h, (st, cc))
  Keeps-running_but i e (inr u, j, w) q (inl (h, n)) = inl (h, λ st k. q st cc)
  Keeps-running_but i e (inr u, j, w) q (inr (h, (st, k))) = absurd (cc)

  Keeps-after_parse :
      (i : Instance_) (w : World) (o : Outcome SnapshotParseError (PtpSnapshot F64))
      → Keeps i (after_parse os i w o)
  unfolding after_parse
  Keeps-after_parse i w (ok s) = inl (refl, λ st k. cc)
  Keeps-after_parse i w (err (missing_dataset d)) =
      Keeps-running_but i _ _ (λ st k. cc) (Keeps-ensure i w)
  Keeps-after_parse i w (err (duplicate_dataset d)) = inl (refl, λ st k. cc)
  Keeps-after_parse i w (err (dataset_error e)) = inl (refl, λ st k. cc)
  Keeps-after_parse i w panic = inl (refl, λ st k. cc)

  Keeps-after_decode :
      (i : Instance_) (w : World) (d : Utf8Error ⊎ List ℕ) → Keeps i (after_decode os i w d)
  unfolding after_decode
  Keeps-after_decode i w (inl e) = inl (refl, λ st k. cc)
  Keeps-after_decode i w (inr text) = Keeps-after_parse i w (parse_pmc_output os.parse_f64 text)

  Keeps-after_pmc :
      (i : Instance_) (r : (Error ⊎ Output Status Utf8Error) × World) → Keeps i (after_pmc os i r)
  unfolding after_pmc
  Keeps-after_pmc i (inl e, w) = inl (refl, λ st k. cc)
  Keeps-after_pmc i (inr out, w) = elim (Bool-cases (os.success out.status)) [
    | inl e ↦ rw e (Keeps-after_decode i w out.stdout)
    | inr e ↦ rw e (Keeps-running_but i _ _ (λ st k. cc) (Keeps-ensure i w))
  ]

  Keeps-query :
      (i : Instance_) (c : Call os (PtpQueryError os) (Unit {0})) → Keeps i c → Keeps i (query os c)
  unfolding query
  Keeps-query i (inl e, j, w) (inl (h, n)) = inl (h, λ st k. n st cc)
  Keeps-query i (inl e, j, w) (inr (h, (st, k))) = inr (h, (st, cc))
  Keeps-query i (inr u, j, w) (inl (h, n)) = rw (← h) (Keeps-after_pmc j (os.pmc (pmc_args os j) w))
  Keeps-query i (inr u, j, w) (inr (h, (st, k))) = absurd (cc)

  -- On every system and in every world, a snapshot leaves the instance as it was and reports
  -- something else than an exit of its process, or it reports such an exit and only clears the
  -- tracked process.
  pub snapshot-Keeps : (i : Instance_) (w : World) → Keeps i (snapshot os i w)
  unfolding snapshot
  snapshot-Keeps i w = Keeps-query i (ensure_process_running os i w) (Keeps-ensure i w)

  -- After a snapshot that reports that the process exited, a snapshot of the resulting instance,
  -- in any world, reports that no process is running, and leaves the instance and the world as
  -- they are.
  pub snapshot_after_exit :
      (i j : Instance_) (w v u : World) (status : Status)
      → snapshot os i w ≡ (inl (process_exited status), j, v)
      → snapshot os j u ≡ (inl process_not_running, j, u)
  unfolding snapshot
  snapshot_after_exit i j w v u status e = elim (snapshot-Keeps i w) [
    | inl (same_instance, never) ↦ absurd (never status (unfold snapshot in ap (λ c. c.0) e))
    | inr (forgotten, reported) ↦
        let gone : j ≡ untracked i = sym (ap (λ c. c.1) e) ∙ forgotten in
        rw gone (unfold ensure_process_running check_process query in refl)
  ]

  -- How a snapshot came about.
  pub record Witnessed (i : Instance_) (w : World) (s : PtpSnapshot F64) (v : World) : Type 0 where
    pub child : Child
    pub tracked : i.process ≡ some child
    pub running : (os.try_wait child w).0 ≡ inr none
    pub output : Output Status Utf8Error
    pub asked : os.pmc (pmc_args os i) (os.try_wait child w).1 ≡ (inr output, v)
    pub succeeded : os.success output.status ≡ true
    pub text : List ℕ
    pub decoded : output.stdout ≡ inr text
    pub meant : parse_pmc_output os.parse_f64 text ≡ ok s

  running_but_fails :
      (e : PtpQueryError os) (c : Call os (PtpQueryError os) (Unit {0})) {s : PtpSnapshot F64}
      {j : Instance_} {v : World}
      → running_but os e c ≢ (inr s, j, v)
  unfolding running_but
  running_but_fails e (inl x, i, w) = λ k. cc
  running_but_fails e (inr u, i, w) = λ k. cc

  after_parse_ok :
      (i : Instance_) (w : World) (o : Outcome SnapshotParseError (PtpSnapshot F64))
      {s : PtpSnapshot F64} {j : Instance_} {v : World}
      → after_parse os i w o ≡ (inr s, j, v)
      → (o ≡ ok s) × (w ≡ v)
  unfolding after_parse
  after_parse_ok i w (ok x) e = (cc, cc)
  after_parse_ok i w (err (missing_dataset d)) e = absurd (running_but_fails _ _ e)
  after_parse_ok i w (err (duplicate_dataset d)) e = absurd (cc)
  after_parse_ok i w (err (dataset_error x)) e = absurd (cc)
  after_parse_ok i w panic e = absurd (cc)

  after_decode_ok :
      (i : Instance_) (w : World) (d : Utf8Error ⊎ List ℕ) {s : PtpSnapshot F64} {j : Instance_}
      {v : World}
      → after_decode os i w d ≡ (inr s, j, v)
      → (text : List ℕ) × (d ≡ inr text) × (parse_pmc_output os.parse_f64 text ≡ ok s) × (w ≡ v)
  unfolding after_decode
  after_decode_ok i w (inl x) e = absurd (cc)
  after_decode_ok i w (inr text) e =
      let (meant, same_world) = after_parse_ok i w (parse_pmc_output os.parse_f64 text) e in
      (text, refl, meant, same_world)

  after_pmc_ok :
      (i : Instance_) (r : (Error ⊎ Output Status Utf8Error) × World) {s : PtpSnapshot F64}
      {j : Instance_} {v : World}
      → after_pmc os i r ≡ (inr s, j, v)
      → (output : Output Status Utf8Error) × (r ≡ (inr output, v))
        × (os.success output.status ≡ true)
        × (text : List ℕ) × (output.stdout ≡ inr text)
        × (parse_pmc_output os.parse_f64 text ≡ ok s)
  unfolding after_pmc
  after_pmc_ok i (inl x, w) e = absurd (cc)
  after_pmc_ok i (inr out, w) e = elim (Bool-cases (os.success out.status)) [
    | inl t ↦
        let (text, d, meant, same_world) = after_decode_ok i w out.stdout (rw t at e) in
        (out, rw same_world refl, t, text, d, meant)
    | inr t ↦ absurd (running_but_fails _ _ (rw t at e))
  ]

  after_try_wait_ok :
      (i : Instance_) (r : (Error ⊎ Option Status) × World) {j : Instance_} {v : World}
      → after_try_wait os i r ≡ (inr tt, j, v)
      → (r.0 ≡ inr none) × (r.1 ≡ v) × (i ≡ j)
  unfolding after_try_wait
  after_try_wait_ok i (inl x, w) e = absurd (cc)
  after_try_wait_ok i (inr (some st), w) e = absurd (cc)
  after_try_wait_ok i (inr none, w) e = (refl, cc, cc)

  check_process_ok :
      (i : Instance_) (p : Option Child) (w : World) {j : Instance_} {v : World}
      → check_process os i p w ≡ (inr tt, j, v)
      → (child : Child) × (p ≡ some child)
        × ((os.try_wait child w).0 ≡ inr none)
        × ((os.try_wait child w).1 ≡ v)
        × (i ≡ j)
  unfolding check_process
  check_process_ok i none w e = absurd (cc)
  check_process_ok i (some c) w e =
      let (running, later, kept) = after_try_wait_ok i (os.try_wait c w) e in
      (c, refl, running, later, kept)

  query_ok :
      (c : Call os (PtpQueryError os) (Unit {0})) {s : PtpSnapshot F64} {j : Instance_} {v : World}
      → query os c ≡ (inr s, j, v)
      → (c.0 ≡ inr tt) × (after_pmc os c.1 (os.pmc (pmc_args os c.1) c.2) ≡ (inr s, j, v))
  unfolding query
  query_ok (inl x, i, w) e = absurd (cc)
  query_ok (inr u, i, w) e = (refl, e)

  snapshot-Witnessed :
      (i j : Instance_) (w v : World) (s : PtpSnapshot F64)
      → snapshot os i w ≡ (inr s, j, v)
      → Witnessed i w s v
  unfolding snapshot ensure_process_running
  snapshot-Witnessed i j w v s e =
      let (checked, asked) = query_ok (check_process os i i.process w) e in
      let (child, tracked, running, later, kept) =
        check_process_ok i i.process w {j = (check_process os i i.process w).1}
          {v = (check_process os i i.process w).2} (whole checked) in
      let (out, got, succeeded, text, decoded, meant) = after_pmc_ok _ _ asked in
      record {
        child = child;
        tracked = tracked;
        running = running;
        output = out;
        asked = cc;
        succeeded = succeeded;
        text = text;
        decoded = decoded;
        meant = meant;
      }
    where
      whole :
          (check_process os i i.process w).0 ≡ inr tt
          → check_process os i i.process w
            ≡ (inr tt, (check_process os i i.process w).1, (check_process os i i.process w).2)
      whole h = λ k. (h k, (check_process os i i.process w).1, (check_process os i i.process w).2)

  snapshot_of_Witnessed :
      (i : Instance_) (w v : World) (s : PtpSnapshot F64)
      → Witnessed i w s v
      → snapshot os i w ≡ (inr s, i, v)
  unfolding snapshot ensure_process_running check_process query after_pmc after_decode after_parse
      after_try_wait
  snapshot_of_Witnessed i w v s h =
      rw
        (
          snapshot, ensure_process_running, ensured, h.asked, after_pmc, h.succeeded, h.decoded,
          h.meant,
        )
        refl
    where
      running_then :
          after_try_wait os i (os.try_wait h.child w) ≡ (inr tt, i, (os.try_wait h.child w).1)
      running_then = unfold after_try_wait in go (os.try_wait h.child w) h.running
        where
          go :
              (r : (Error ⊎ Option Status) × World)
              → r.0 ≡ inr none
              → after_try_wait os i r ≡ (inr tt, i, r.1)
          go (x, u) e = unfold after_try_wait in rw e refl

      ensured : check_process os i i.process w ≡ (inr tt, i, (os.try_wait h.child w).1)
      ensured = ap (λ p. check_process os i p w) h.tracked ∙ unfold check_process in running_then

  -- On every system: a snapshot is returned exactly if a process is tracked, it had not exited
  -- when it was asked before `pmc`, `pmc` was then called with the instance's arguments and
  -- succeeded, its output is valid UTF-8, and the snapshot is what that text parses to; the
  -- instance is then as it was, and the world as `pmc` left it.
  pub snapshot_iff :
      (i j : Instance_) (w v : World) (s : PtpSnapshot F64)
      → (snapshot os i w ≡ (inr s, j, v)) ↔ ((j ≡ i) × Witnessed i w s v)
  snapshot_iff i j w v s = (
    λ e. (unchanged e, snapshot-Witnessed i j w v s e),
    λ (same_instance, h). rw same_instance (snapshot_of_Witnessed i w v s h),
  )
    where
      unchanged : snapshot os i w ≡ (inr s, j, v) → j ≡ i
      unchanged e = elim (snapshot-Keeps i w) [
        | inl (kept, never) ↦ sym (ap (λ c. c.1) e) ∙ kept
        | inr (forgotten, (status, reported)) ↦
            let failed : (snapshot os i w).0 ≡ inr s = ap (λ c. c.0) e in absurd (cc)
      ]
