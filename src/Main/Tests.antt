-- ===== src/Main/Tests.antt =====
-- The start of the program and its signals at concrete inputs.
use casket.Base.{◌+◌, ◌≤◌, ◌≡◌, refl, true, false, none, [], ◌∷◌, ok, ◌==◌, if◌then◌else◌}
use casket.Config.{Config, default}
use casket.Main.{System, parent, child, worker, fork_workers, on_sigint}
use casket.Main.{server}
use casket.Main.Signals.{run_turn-signals, signals}
use casket.Msgs.Example.{request_format, response_format}
use casket.Server.Tests.{turn_with}
use casket.Server.{Server, Turn, start, run_turn, stopped, next}

abbrev os : System
os = record {
  bind = ok 3;
  pair = λ i. ok (10 + i, 20 + i);
  fork = λ i. parent (100 + i);
  set_handler = ok tt;
}

-- The server has a socket for each of its two workers, and the second worker the other end of its.
two_workers : fork_workers os 2 0 [] ≡ server ((100, 10) ∷ (101, 11) ∷ [])
unfolding fork_workers
two_workers = refl

second_worker :
    fork_workers (record os { fork = λ i. if i == 1 then child else parent 100 }) 2 0 [] ≡ worker 21
unfolding fork_workers
second_worker = refl

abbrev cfg : Config
cfg = default none

-- Two signals have come before the round.
abbrev closing : Turn
closing = record (turn_with false []) { close_now = true }

run_turn-signals_example :
    (2 ≤ 2
      → (s' : Server) × (run_turn request_format response_format cfg closing (start 2)
          ≡ stopped s'))
    × (1 ≤ 2
        → (s' : Server) → run_turn request_format response_format cfg closing (start 2) ≡ next s'
        → s'.run_shutdown ≡ true)
unfolding signals on_sigint
run_turn-signals_example =
    run_turn-signals request_format response_format cfg closing (start 2) 2 2 refl refl
