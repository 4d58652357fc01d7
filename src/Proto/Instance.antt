-- ===== src/Proto/Instance.antt =====
-- src/ptp_proto/instance.rs: the `ptp4l` process that an instance manages, and queries with `pmc`.
-- Log messages are left out, and with them the threads' loops that forward the process's output.
pub mod Laws
use rs.Prelude.{
  ℕ, ◌≡◌, ◌⊎◌, inl, inr, Bool, true, false, List, [], ◌∷◌, ◌++◌, Option, none, some, if◌then◌else◌,
}
use Prim.Native.String.{String}
use rs.Prelude.Text.{codes}
use rs.Io.{Outcome, ok, err, panic}
use rs.Proto.State.{
  PtpSnapshot, SnapshotParseError, missing_dataset, duplicate_dataset, dataset_error,
}
use rs.Proto.State.Snapshot.{parse_pmc_output}

-- What `pmc` left behind: its status, and its output as `String::from_utf8` decodes it.
pub record Output (Status : Type 0) (Utf8Error : Type 0) : Type 0 where
  pub status : Status
  pub stdout : Utf8Error ⊎ List ℕ

-- The operating system, which is not part of the repository. A process is its handle.
pub record Os : Type 1 where
  pub World : Type 0
  pub Child : Type 0
  pub Error : Type 0
  pub Status : Type 0
  pub Utf8Error : Type 0
  pub F64 : Type 0
  -- `ExitStatus::success`, and `f64::from_str`
  pub success : Status → Bool
  pub parse_f64 : List ℕ → Option F64
  -- `Command::new("ptp4l").args(args).spawn()`, `kill`, `wait` and `try_wait` of a child, and
  -- `Command::new("pmc").args(args).output()`
  pub spawn : List (List ℕ) → World → (Error ⊎ Child) × World
  pub kill : Child → World → (Error ⊎ Unit {0}) × World
  pub wait : Child → World → World
  pub try_wait : Child → World → (Error ⊎ Option Status) × World
  pub pmc : List (List ℕ) → World → (Error ⊎ Output Status Utf8Error) × World
  -- taking an output stream of a child, and spawning the thread that logs it
  pub take_stdout : Child → World → Bool × World
  pub take_stderr : Child → World → Bool × World
  pub spawn_logger : Child → World → (Error ⊎ Unit {0}) × World
  -- `io::Error::other` on a stream that is not there, and the kind, the text and the renewal with
  -- another message, `io::Error::new(error.kind(), message)`, of an error
  pub not_available : Error
  pub is_not_found : Error → Bool
  pub display : Error → List ℕ
  pub with_message : Error → List ℕ → Error
  -- `std::process::id()` as it is formatted, and files
  pub process_id : List ℕ
  pub create_file : List ℕ → World → (Error ⊎ Unit {0}) × World
  pub write_line : List ℕ → List ℕ → World → (Error ⊎ Unit {0}) × World
  pub remove_file : List ℕ → World → World

pub data PtpRole : Type 0 where
  master slave : PtpRole

module _ (os : Os) where
  open os use {World, Child, Error, Status, Utf8Error, F64}

  pub data PtpQueryError : Type 0 where
    io : Error → PtpQueryError
    command_failed : Status → PtpQueryError
    invalid_utf8 : Utf8Error → PtpQueryError
    not_ready : String → PtpQueryError
    process_exited : Status → PtpQueryError
    process_not_running : PtpQueryError
    parse_error : SnapshotParseError → PtpQueryError

  pub record PtpInstance : Type 0 where
    pub name : List ℕ
    pub interface : List ℕ
    pub role : PtpRole
    pub config_path : List ℕ
    pub process : Option Child

  -- A call's result, the instance after it and the world after it.
  abbrev pub Call : Type 0 → Type 0 → Type 0
  Call E A = (E ⊎ A) × PtpInstance × World

  unfoldable pub wrap_command_error : List ℕ → Error → Error
  wrap_command_error program e = os.with_message e (
      codes "failed to execute `"
      ++ (program
          ++ (codes "`: "
              ++ (if os.is_not_found e then codes "command not found" else os.display e))))

  unfoldable pub config_path_of : List ℕ → List ℕ
  config_path_of name =
      codes "/tmp/ptp4l-" ++ (name ++ (codes "-" ++ (os.process_id ++ codes ".cfg")))

  unfoldable pub config_text : List ℕ → List ℕ
  config_text name =
      codes "[global]\nuds_address /var/run/ptp4l-"
      ++ (name
          ++ (codes "-"
              ++ (os.process_id
                  ++ (codes "\nuds_ro_address /var/run/ptp4l-"
                      ++ (name ++ (codes "-" ++ (os.process_id ++ codes "-ro")))))))

  unfoldable pub after_write : List ℕ → (Error ⊎ Unit {0}) × World → (Error ⊎ List ℕ) × World
  after_write path (inl e, w) = (inl e, w)
  after_write path (inr u, w) = (inr path, w)

  unfoldable pub after_create : List ℕ → (Error ⊎ Unit {0}) × World → (Error ⊎ List ℕ) × World
  after_create name (inl e, w) = (inl e, w)
  after_create name (inr u, w) =
      after_write (config_path_of name) (os.write_line (config_path_of name) (config_text name) w)

  unfoldable pub create_config : List ℕ → World → (Error ⊎ List ℕ) × World
  create_config name w = after_create name (os.create_file (config_path_of name) w)

  unfoldable pub after_config :
      List ℕ → PtpRole → List ℕ → (Error ⊎ List ℕ) × World → (Error ⊎ PtpInstance) × World
  after_config interface role name (inl e, w) = (inl e, w)
  after_config interface role name (inr config_path, w) = (
    inr (record {
      name = name;
      interface = interface;
      role = role;
      config_path = config_path;
      process = none;
    }),
    w,
  )

  -- `PtpInstance::new`
  unfoldable pub new_instance : List ℕ → PtpRole → List ℕ → World → (Error ⊎ PtpInstance) × World
  new_instance interface role name w = after_config interface role name (create_config name w)

  unfoldable pub role_args : PtpRole → List (List ℕ)
  role_args master = []
  role_args slave = codes "-s" ∷ []

  unfoldable pub ptp4l_args : PtpInstance → List (List ℕ)
  ptp4l_args i =
      (codes "-i"
        ∷ i.interface
        ∷ codes "-H"
        ∷ codes "-m"
        ∷ codes "-2"
        ∷ codes "-f"
        ∷ i.config_path
        ∷ [])
      ++ role_args i.role

  -- One stream of `attach_ptp4l_log_threads`.
  unfoldable pub attach_stream : Child → Bool × World → (Error ⊎ Unit {0}) × World
  attach_stream child (false, w) = (inl os.not_available, w)
  attach_stream child (true, w) = os.spawn_logger child w

  unfoldable pub attach_stderr : Child → (Error ⊎ Unit {0}) × World → (Error ⊎ Unit {0}) × World
  attach_stderr child (inl e, w) = (inl e, w)
  attach_stderr child (inr u, w) = attach_stream child (os.take_stderr child w)

  unfoldable pub attach_ptp4l_log_threads : Child → World → (Error ⊎ Unit {0}) × World
  attach_ptp4l_log_threads child w =
      attach_stderr child (attach_stream child (os.take_stdout child w))

  unfoldable pub after_attach :
      PtpInstance → Child → (Error ⊎ Unit {0}) × World → Call Error (Unit {0})
  after_attach i child (inl e, w) = (inl e, i, os.wait child (os.kill child w).1)
  after_attach i child (inr u, w) = (inr tt, record i { process = some child }, w)

  unfoldable pub after_spawn : PtpInstance → (Error ⊎ Child) × World → Call Error (Unit {0})
  after_spawn i (inl e, w) = (inl (wrap_command_error (codes "ptp4l") e), i, w)
  after_spawn i (inr child, w) = after_attach i child (attach_ptp4l_log_threads child w)

  unfoldable pub start : PtpInstance → World → Call Error (Unit {0})
  start i w = after_spawn i (os.spawn (ptp4l_args i) w)

  unfoldable pub after_kill :
      PtpInstance → Child → (Error ⊎ Unit {0}) × World → Call Error (Unit {0})
  after_kill i child (inl e, w) = (inl e, i, w)
  after_kill i child (inr u, w) = (inr tt, i, os.wait child w)

  unfoldable pub stop_process : PtpInstance → Option Child → World → Call Error (Unit {0})
  stop_process i none w = (inr tt, i, w)
  stop_process i (some child) w = after_kill (record i { process = none }) child (os.kill child w)

  unfoldable pub stop : PtpInstance → World → Call Error (Unit {0})
  stop i w = stop_process i i.process w

  unfoldable pub after_try_wait :
      PtpInstance → (Error ⊎ Option Status) × World → Call PtpQueryError (Unit {0})
  after_try_wait i (inl e, w) = (inl (io e), i, w)
  after_try_wait i (inr (some status), w) =
      (inl (process_exited status), record i { process = none }, w)
  after_try_wait i (inr none, w) = (inr tt, i, w)

  unfoldable pub check_process : PtpInstance → Option Child → World → Call PtpQueryError (Unit {0})
  check_process i none w = (inl process_not_running, i, w)
  check_process i (some child) w = after_try_wait i (os.try_wait child w)

  unfoldable pub ensure_process_running : PtpInstance → World → Call PtpQueryError (Unit {0})
  ensure_process_running i w = check_process i i.process w

  unfoldable pub pmc_args : PtpInstance → List (List ℕ)
  pmc_args i =
      codes "-u"
      ∷ codes "-b"
      ∷ codes "0"
      ∷ codes "-f"
      ∷ i.config_path
      ∷ codes "GET TIME_STATUS_NP"
      ∷ codes "GET PORT_DATA_SET"
      ∷ codes "GET CURRENT_DATA_SET"
      ∷ []

  -- `self.ensure_process_running()?; return Err(e)`
  unfoldable pub running_but :
      PtpQueryError → Call PtpQueryError (Unit {0}) → Call PtpQueryError (PtpSnapshot F64)
  running_but e (inl x, i, w) = (inl x, i, w)
  running_but e (inr u, i, w) = (inl e, i, w)

  -- The parser does not panic (State/Snapshot/Total).
  unfoldable pub after_parse :
      PtpInstance
      → World
      → Outcome SnapshotParseError (PtpSnapshot F64)
      → Call PtpQueryError (PtpSnapshot F64)
  after_parse i w (ok snapshot) = (inr snapshot, i, w)
  after_parse i w (err (missing_dataset d)) = running_but (not_ready d) (ensure_process_running i w)
  after_parse i w (err (duplicate_dataset d)) = (inl (parse_error (duplicate_dataset d)), i, w)
  after_parse i w (err (dataset_error e)) = (inl (parse_error (dataset_error e)), i, w)
  after_parse i w panic = (inl process_not_running, i, w)

  unfoldable pub after_decode :
      PtpInstance → World → Utf8Error ⊎ List ℕ → Call PtpQueryError (PtpSnapshot F64)
  after_decode i w (inl e) = (inl (invalid_utf8 e), i, w)
  after_decode i w (inr text) = after_parse i w (parse_pmc_output os.parse_f64 text)

  unfoldable pub after_pmc :
      PtpInstance → (Error ⊎ Output Status Utf8Error) × World → Call PtpQueryError (PtpSnapshot F64)
  after_pmc i (inl e, w) = (inl (io (wrap_command_error (codes "pmc") e)), i, w)
  after_pmc i (inr output, w) =
      if os.success output.status
      then after_decode i w output.stdout
      else running_but (command_failed output.status) (ensure_process_running i w)

  unfoldable pub query : Call PtpQueryError (Unit {0}) → Call PtpQueryError (PtpSnapshot F64)
  query (inl e, i, w) = (inl e, i, w)
  query (inr u, i, w) = after_pmc i (os.pmc (pmc_args i) w)

  unfoldable pub snapshot : PtpInstance → World → Call PtpQueryError (PtpSnapshot F64)
  snapshot i w = query (ensure_process_running i w)

  -- `drop`
  unfoldable pub drop_process : Option Child → World → World
  drop_process none w = w
  drop_process (some child) w = elim (os.kill child w).0 [
    | inl e ↦ (os.kill child w).1
    | inr u ↦ os.wait child (os.kill child w).1
  ]

  unfoldable pub drop_instance : PtpInstance → World → World
  drop_instance i w = os.remove_file i.config_path (drop_process i.process w)
