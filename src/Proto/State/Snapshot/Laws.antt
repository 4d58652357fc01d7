-- ===== src/Proto/State/Snapshot/Laws.antt =====
-- src/ptp_proto/state.rs: which outputs of `pmc` make a snapshot.
use Prim.Native.String.{String}
use rs.Prelude.{
  ℕ, ◌≡◌, ◌↔◌, refl, sym, ap, ◌∙◌, true, false, List, [], ◌∷◌, Option, none, some, Bool-cases, inl,
  inr,
}
use rs.Prelude.Text.{codes, same, same-eq}
use rs.Io.{Outcome, ok, err, panic, bind}
use rs.Io.Outcomes.{bind_ok, bind_run}
use rs.Proto.State.{
  TimeStatusNp, PortDataSet, CurrentDataSet, PtpSnapshot, FieldParseError, SnapshotParseError,
}
use rs.Proto.State.Snapshot.Scan.{blocks_of, pick, scan, scan_one, scan_found}
use rs.Proto.State.Blocks.{Block, parse_blocks}
use rs.Proto.State.Fields.{to_map, time_status_of, port_data_of, current_data_of}
use rs.Proto.State.Snapshot.{once, Found, complete, take_block, take_blocks, parse_pmc_output}

bind-some :
    {A B : Type 0} (o : Outcome SnapshotParseError A) (k : Option A → Outcome SnapshotParseError B)
    → bind o (λ a. k (some a)) ≡ bind (bind o (λ a. ok (some a))) k
bind-some (ok a) k = refl
bind-some (err e) k = refl
bind-some panic k = refl

-- No two of the three kinds are the same.
apart :
    (kind : List ℕ) (a b : String)
    → same kind (codes a) ≡ true
    → same (codes a) (codes b) ≡ false
    → same kind (codes b) ≡ false
apart kind a b e f = rw (same-eq kind (codes a) e) f

module _ {F64 : Type 0} (parse_f64 : List ℕ → Option F64) where
  abbrev pub time_lines : List (List ℕ) → Outcome FieldParseError (TimeStatusNp F64)
  time_lines ls = time_status_of parse_f64 (to_map ls)

  abbrev pub port_lines : List (List ℕ) → Outcome FieldParseError PortDataSet
  port_lines ls = port_data_of (to_map ls)

  abbrev pub current_lines : List (List ℕ) → Outcome FieldParseError (CurrentDataSet F64)
  current_lines ls = current_data_of parse_f64 (to_map ls)

  abbrev pick_time : Found F64 → Block → Outcome SnapshotParseError (Option (TimeStatusNp F64))
  pick_time f b = pick "TIME_STATUS_NP" time_lines f.time_status b

  abbrev pick_port : Found F64 → Block → Outcome SnapshotParseError (Option PortDataSet)
  pick_port f b = pick "PORT_DATA_SET" port_lines f.port_data b

  abbrev pick_current : Found F64 → Block → Outcome SnapshotParseError (Option (CurrentDataSet F64))
  pick_current f b = pick "CURRENT_DATA_SET" current_lines f.current_data b

  -- A block changes each dataset as that one sees it.
  take_block_picks :
      (f : Found F64) (b : Block)
      → take_block parse_f64 f b
        ≡ bind (pick_time f b) (λ t. bind (pick_port f b) (λ p.
          bind
            (pick_current f b)
            (λ c. ok (record { time_status = t; port_data = p; current_data = c }))))
  unfolding take_block pick same
  take_block_picks f (kind, ls) = elim (Bool-cases (same kind (codes "TIME_STATUS_NP"))) [
    | inl t ↦
        rw
          (
            t,
            apart kind "TIME_STATUS_NP" "PORT_DATA_SET" t refl,
            apart kind "TIME_STATUS_NP" "CURRENT_DATA_SET" t refl,
          )
          (bind-some (once "TIME_STATUS_NP" f.time_status (time_lines ls))
            (λ t. ok (record f { time_status = t })))
    | inr t ↦ elim (Bool-cases (same kind (codes "PORT_DATA_SET"))) [
      | inl p ↦
          rw (t, p, apart kind "PORT_DATA_SET" "CURRENT_DATA_SET" p refl)
            (bind-some (once "PORT_DATA_SET" f.port_data (port_lines ls))
              (λ t. ok (record f { port_data = t })))
      | inr p ↦ elim (Bool-cases (same kind (codes "CURRENT_DATA_SET"))) [
        | inl c ↦
            rw (t, p, c)
              (bind-some (once "CURRENT_DATA_SET" f.current_data (current_lines ls))
                (λ t. ok (record f { current_data = t })))
        | inr c ↦ rw (t, p, c) refl
      ]
    ]
  ]

  abbrev Scans : Found F64 → List Block → Found F64 → Type 0
  Scans f bs g =
      (scan "TIME_STATUS_NP" time_lines f.time_status bs ≡ ok g.time_status)
      × (scan "PORT_DATA_SET" port_lines f.port_data bs ≡ ok g.port_data)
      × (scan "CURRENT_DATA_SET" current_lines f.current_data bs ≡ ok g.current_data)

  take-Scans :
      (f : Found F64) (bs : List Block) (g : Found F64)
      → take_blocks parse_f64 f bs ≡ ok g
      → Scans f bs g
  unfolding take_blocks scan
  take-Scans f [] g e = let same_state : f ≡ g = cc in rw same_state (refl, refl, refl)
  take-Scans f (b ∷ bs) g e =
      let (h, here, there) =
        bind_ok (take_block parse_f64 f b) (λ h. take_blocks parse_f64 h bs) {b = g} e in
      let (t, pt, rest) = bind_ok (pick_time f b) _ {b = h} (sym (take_block_picks f b) ∙ here) in
      let (p, pp, rest2) = bind_ok (pick_port f b) _ {b = h} rest in
      let (c, pc, made) = bind_ok (pick_current f b) _ {b = h} rest2 in
      let state : record { time_status = t; port_data = p; current_data = c } ≡ h = cc in
      let (st, sp, sc) =
        take-Scans (record { time_status = t; port_data = p; current_data = c }) bs g
          (rw (← state) at there) in
      (bind_run _ pt st, bind_run _ pp sp, bind_run _ pc sc)

  take_of_Scans :
      (f : Found F64) (bs : List Block) (g : Found F64)
      → Scans f bs g
      → take_blocks parse_f64 f bs ≡ ok g
  unfolding take_blocks scan
  take_of_Scans f [] g (t, p, c) =
      let time : f.time_status ≡ g.time_status = cc in
      let port : f.port_data ≡ g.port_data = cc in
      let current : f.current_data ≡ g.current_data = cc in
      λ i. ok (record { time_status = time i; port_data = port i; current_data = current i })
  take_of_Scans f (b ∷ bs) g (st, sp, sc) =
      let (t, pt, rt) = bind_ok (pick_time f b) _ {b = g.time_status} st in
      let (p, pp, rp) = bind_ok (pick_port f b) _ {b = g.port_data} sp in
      let (c, pc, rc) = bind_ok (pick_current f b) _ {b = g.current_data} sc in
      bind_run (λ h. take_blocks parse_f64 h bs)
        (take_block_picks f b ∙ bind_run _ pt (bind_run _ pp (bind_run _ pc refl)))
        (take_of_Scans (record { time_status = t; port_data = p; current_data = c }) bs g
          (rt, rp, rc))

  -- The output has one block of this kind, and its lines give this dataset.
  abbrev pub IsOnly :
      {A : Type 0} → String → (List (List ℕ) → Outcome FieldParseError A) → List ℕ → A → Type 0
  IsOnly name parse text a =
      (lines : List (List ℕ)) × (blocks_of name (parse_blocks text) ≡ lines ∷ [])
      × (parse lines ≡ ok a)

  complete_ok :
      (f : Found F64) (s : PtpSnapshot F64)
      → complete f ≡ ok s
      → (f.time_status ≡ some s.time_status)
        × (f.port_data ≡ some s.port_data)
        × (f.current_data ≡ some s.current_data)
  unfolding complete
  complete_ok f s e = go f.time_status f.port_data f.current_data e
    where
      go :
          (t : Option (TimeStatusNp F64)) (p : Option PortDataSet) (c : Option (CurrentDataSet F64))
          → complete (record { time_status = t; port_data = p; current_data = c }) ≡ ok s
          → (t ≡ some s.time_status) × (p ≡ some s.port_data) × (c ≡ some s.current_data)
      go none p c h = absurd (cc)
      go (some t) none c h = absurd (cc)
      go (some t) (some p) none h = absurd (cc)
      go (some t) (some p) (some c) h =
          let made : record { time_status = t; port_data = p; current_data = c } ≡ s = cc in
          rw (← made) (refl, refl, refl)

  parse_pmc_output_iff :
      (text : List ℕ) (s : PtpSnapshot F64)
      → (parse_pmc_output parse_f64 text ≡ ok s) ↔ (
          IsOnly "TIME_STATUS_NP" time_lines text s.time_status
          × IsOnly "PORT_DATA_SET" port_lines text s.port_data
          × IsOnly "CURRENT_DATA_SET" current_lines text s.current_data)
  unfolding parse_pmc_output
  parse_pmc_output_iff text s = (to, from)
    where
      start : Found F64
      start = record { time_status = none; port_data = none; current_data = none }

      to :
          parse_pmc_output parse_f64 text ≡ ok s
          → IsOnly "TIME_STATUS_NP" time_lines text s.time_status
            × IsOnly "PORT_DATA_SET" port_lines text s.port_data
            × IsOnly "CURRENT_DATA_SET" current_lines text s.current_data
      to e =
          let (f, here, there) =
            bind_ok (take_blocks parse_f64 start (parse_blocks text)) complete {b = s} e in
          let (t, p, c) = complete_ok f s there in
          let (st, sp, sc) = take-Scans start (parse_blocks text) f here in
          (
            scan_one "TIME_STATUS_NP" time_lines (parse_blocks text) (st ∙ ap ok t),
            scan_one "PORT_DATA_SET" port_lines (parse_blocks text) (sp ∙ ap ok p),
            scan_one "CURRENT_DATA_SET" current_lines (parse_blocks text) (sc ∙ ap ok c),
          )

      from :
          IsOnly "TIME_STATUS_NP" time_lines text s.time_status
            × IsOnly "PORT_DATA_SET" port_lines text s.port_data
            × IsOnly "CURRENT_DATA_SET" current_lines text s.current_data
          → parse_pmc_output parse_f64 text ≡ ok s
      from ((tl, t1, t2), (pl, p1, p2), (cl, c1, c2)) =
          bind_run complete
            (take_of_Scans start (parse_blocks text)
              (record {
                time_status = some s.time_status;
                port_data = some s.port_data;
                current_data = some s.current_data;
              })
              (
                scan_found "TIME_STATUS_NP" time_lines (parse_blocks text) tl t1 t2,
                scan_found "PORT_DATA_SET" port_lines (parse_blocks text) pl p1 p2,
                scan_found "CURRENT_DATA_SET" current_lines (parse_blocks text) cl c1 c2,
              ))
            (unfold complete in refl)

  -- The first block of its kind is the only one, and gives this dataset.
  abbrev pub IsAlone :
      {A : Type 0}
      → (List (List ℕ) → Outcome FieldParseError A)
      → List (List ℕ)
      → List (List (List ℕ))
      → A
      → Type 0
  IsAlone parse first more a = (more ≡ []) × (parse first ≡ ok a)

  IsOnly-IsAlone :
      {A : Type 0} (name : String) (parse : List (List ℕ) → Outcome FieldParseError A)
      (text : List ℕ) (first : List (List ℕ)) (more : List (List (List ℕ))) (a : A)
      → blocks_of name (parse_blocks text) ≡ first ∷ more
      → IsOnly name parse text a ↔ IsAlone parse first more a
  IsOnly-IsAlone name parse text first more a e = (
    λ (lines, one, read).
        let both : first ∷ more ≡ lines ∷ [] = sym e ∙ one in
        let same_lines : first ≡ lines = cc in
        let no_more : more ≡ [] = cc in (no_more, ap parse same_lines ∙ read),
    λ (no_more, read). (first, rw (← no_more) e, read),
  )

  -- Whatever parser of floats is used, and for a text with a block or more of each of the three
  -- datasets: `parse_pmc_output` returns a snapshot exactly if no dataset has a second block, and
  -- parsing the lines of the block of each dataset gives that dataset of the snapshot.
  pub parse_pmc_output-ok :
      (text : List ℕ) (s : PtpSnapshot F64) (time port current : List (List ℕ))
      (times ports currents : List (List (List ℕ)))
      → blocks_of "TIME_STATUS_NP" (parse_blocks text) ≡ time ∷ times
      → blocks_of "PORT_DATA_SET" (parse_blocks text) ≡ port ∷ ports
      → blocks_of "CURRENT_DATA_SET" (parse_blocks text) ≡ current ∷ currents
      → (parse_pmc_output parse_f64 text ≡ ok s) ↔ (
          IsAlone time_lines time times s.time_status
          × IsAlone port_lines port ports s.port_data
          × IsAlone current_lines current currents s.current_data)
  parse_pmc_output-ok text s time port current times ports currents et ep ec =
      let t = IsOnly-IsAlone "TIME_STATUS_NP" time_lines text time times s.time_status et in
      let p = IsOnly-IsAlone "PORT_DATA_SET" port_lines text port ports s.port_data ep in
      let c =
        IsOnly-IsAlone "CURRENT_DATA_SET" current_lines text current currents s.current_data ec in
      let all = parse_pmc_output_iff text s in
      (
        λ e. let (a, b, d) = all.0 e in (t.0 a, p.0 b, c.0 d),
        λ (a, b, d). all.1 (t.1 a, p.1 b, c.1 d),
      )
