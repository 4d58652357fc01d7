-- ===== src/Tests/Instance.antt =====
-- A small system for the properties of managed processes: its world is the status with which the
-- process has exited, if it has.
use rs.Prelude.{ℕ, ◌↔◌, [], ◌∷◌, ◌≡◌, refl, inl, inr, true, Option, none, some, ◌==◌}
use rs.Prelude.Text.{codes}
use rs.Proto.Instance
use rs.Proto.Instance.{
  Os, Output, PtpInstance, snapshot, process_exited, process_not_running, query,
  ensure_process_running, check_process, after_try_wait, after_pmc, after_decode, after_parse,
}
use rs.Proto.Instance.Laws.{Keeps, Witnessed, snapshot-Keeps, snapshot_after_exit, snapshot_iff}
use rs.Tests.Pmc.{whole, printed, state, printed-state}

abbrev pub small : Os
small = record {
  World = Option ℕ;
  Child = ℕ;
  Error = ℕ;
  Status = ℕ;
  Utf8Error = ℕ;
  F64 = ℕ;
  success = λ s. s == 0;
  parse_f64 = whole;
  spawn = λ args w. (inr 1, none);
  kill = λ c w. (inr tt, some 9);
  wait = λ c w. w;
  try_wait = λ c w. (inr w, w);
  pmc = λ args w. (inr (record { status = 0; stdout = inr printed }), w);
  take_stdout = λ c w. (true, w);
  take_stderr = λ c w. (true, w);
  spawn_logger = λ c w. (inr tt, w);
  not_available = 0;
  is_not_found = λ e. e == 2;
  display = λ e. e ∷ [];
  with_message = λ e m. e;
  process_id = codes "77";
  create_file = λ p w. (inr tt, w);
  write_line = λ p l w. (inr tt, w);
  remove_file = λ p w. w;
}

abbrev pub started : PtpInstance small
started = record {
  name = codes "a";
  interface = codes "eth0";
  role = Instance.slave;
  config_path = codes "/tmp/x";
  process = some 1;
}

queried : snapshot small started none ≡ (inr state, started, none)
unfolding snapshot query ensure_process_running check_process after_try_wait after_pmc after_decode
    after_parse
queried = rw printed-state refl

snapshot_iff_example :
    (snapshot small started none ≡ (inr state, started, none))
    ↔ ((started ≡ started) × Witnessed small started none state none)
snapshot_iff_example = snapshot_iff small started started none none state

-- The right side holds of a run.
witnessed : Witnessed small started none state none
witnessed = (snapshot_iff_example.0 queried).1

snapshot-Keeps_example : Keeps small started (snapshot small started (some 3))
snapshot-Keeps_example = snapshot-Keeps small started (some 3)

abbrev exited : PtpInstance small
exited = record started { process = none }

found_exited : snapshot small started (some 3) ≡ (inl (process_exited 3), exited, some 3)
unfolding snapshot query ensure_process_running check_process after_try_wait
found_exited = refl

snapshot_after_exit_example : snapshot small exited none ≡ (inl process_not_running, exited, none)
snapshot_after_exit_example =
    snapshot_after_exit small started exited (some 3) (some 3) none 3 found_exited
