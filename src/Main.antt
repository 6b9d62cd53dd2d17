-- ===== src/Main.antt =====
-- src/main.rs: the start of the server and its workers, and what a signal does.
-- What the operating system answers is a `System`; one process is followed, which `fork` makes the
-- parent or a child. `run_server` and `run_worker` are arguments, by their results.
pub mod Signals
pub mod Tests
use casket.Base.{
  ℕ, zero, suc, ◌+◌, Bool, true, false, Option, none, some, List, [], ◌∷◌, ◌++◌, Bytes, codes, ◌==◌,
  Result, ok, err, if◌then◌else◌, length, get_or,
}
use casket.Config.{Config}
use casket.Errors.{RuntimeError, fatal_io_error, fork_failed, reason}

-- The two atomic flags.
pub record Flags : Type 0 where
  pub running : Bool
  pub close_now : Bool

abbrev pub initial_flags : Flags
initial_flags = record { running = true; close_now = false }

-- The closure of `ctrlc_handler`: one SIGINT.
unfoldable pub on_sigint : Flags → Flags
on_sigint f = if f.running then record f { running = false } else record f { close_now = true }

pub data Message : Type 0 where
  usage casket_started casket_closing : Message
  config_not_loaded application_not_loaded runtime_error : Bytes → Message
  handler_not_registered : Bytes → Message

unfoldable pub ctrlc_handler : Result Bytes (Unit {0}) → List Message
ctrlc_handler (ok _) = []
ctrlc_handler (err e) = handler_not_registered e ∷ []

pub data Fork : Type 0 where
  parent : ℕ → Fork
  child : Fork
  not_forked : Fork

-- The answers of the operating system; the rounds of the loop are numbered from 0.
pub record System : Type 0 where
  pub bind : Result Bytes ℕ
  pub pair : ℕ → Result Bytes (ℕ × ℕ)
  pub fork : ℕ → Fork
  pub set_handler : Result Bytes (Unit {0})

-- What the process is after the loop: a worker with its socket, or the server with its workers'
-- process ids and sockets.
pub data Role : Type 0 where
  fails : RuntimeError → Role
  worker : ℕ → Role
  server : List (ℕ × ℕ) → Role

-- The loop over the workers, of which `n` are left and round `i` is the next.
unfoldable pub fork_workers : System → ℕ → ℕ → List (ℕ × ℕ) → Role
fork_workers os zero i parent_socks = server parent_socks
fork_workers os (suc n) i parent_socks = elim (os.pair i) [
  | err e ↦ fails (fatal_io_error (codes "couldn't create unix socket pair") e)
  | ok (sock1, sock2) ↦ elim (os.fork i) [
    | parent pid ↦ fork_workers os n (i + 1) (parent_socks ++ (pid, sock1) ∷ [])
    | child ↦ worker sock2
    | not_forked ↦ fails fork_failed
  ]
]

-- What a process logs and its result.
abbrev pub Ran : Type 0
Ran = List Message × Result RuntimeError (Unit {0})

module _ (run_worker : ℕ → Result RuntimeError (Unit {0}))
    (run_server : ℕ → List (ℕ × ℕ) → Result RuntimeError (Unit {0})) where
  unfoldable pub run_as : System → ℕ → Role → Ran
  unfolding ctrlc_handler
  run_as os listener (fails e) = ([], err e)
  run_as os listener (worker sock) = (ctrlc_handler os.set_handler, run_worker sock)
  run_as os listener (server socks) =
      let before = casket_started ∷ ctrlc_handler os.set_handler in
      elim (run_server listener socks) [
        | err e ↦ (before, err e)
        | ok _ ↦ (before ++ casket_closing ∷ [], ok tt)
      ]

  unfoldable pub run : Config → System → Ran
  unfolding fork_workers run_as
  run cfg os = elim os.bind [
    | err e ↦ ([], err (fatal_io_error (codes "couldn't bind tcp listener on port") e))
    | ok listener ↦ run_as os listener (fork_workers os cfg.num_workers 0 [])
  ]

  -- `main`: the messages and the code that the process exits with. `load` is `Application::load`,
  -- whose error stands as its text.
  unfoldable pub main :
      List Bytes
      → Result Bytes Config
      → (Bytes → Result Bytes (Unit {0}))
      → System
      → List Message × ℕ
  unfolding run reason
  main (program ∷ app_str ∷ []) cfg load os = elim cfg [
    | err e ↦ (config_not_loaded e ∷ [], 1)
    | ok cfg ↦ elim (load app_str) [
      | err e ↦ (application_not_loaded e ∷ [], 1)
      | ok _ ↦
          let (messages, result) = run cfg os in
          elim result [
            | ok _ ↦ (messages, 0)
            | err e ↦ (messages ++ runtime_error (reason e) ∷ [], 1)
          ]
    ]
  ]
  main [] cfg load os = (usage ∷ [], 0)
  main (program ∷ []) cfg load os = (usage ∷ [], 0)
  main (program ∷ app_str ∷ arg ∷ args) cfg load os = (usage ∷ [], 0)
