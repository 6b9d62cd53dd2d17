-- ===== src/Server/Rounds.antt =====
-- The rounds of the loop, where the workers answer what they were asked: no `unwrap` fails.
use casket.Base.{ℕ, ◌+◌, ◌<◌, ◌≡◌, ◌≢◌, refl, ap, List, [], ◌∷◌, arith, length, subst, zero, suc}
use casket.Config.{Config}
use casket.Msgs.ServerBuffer.Read.{kept, closed}
use casket.Msgs.ServerBuffer.{keeps}
use casket.Msgs.ServerBuffer
use casket.Msgs.Wire.{Request, Response, Format}
use casket.Server.Owed.{
  Goes, >>=-Goes, IsOwed, HasNoneWaiting, before_events, before_events-Goes, check_running-IsOwed,
}
use casket.Server.Streams.Waiting.{kept_tokens, closed_tokens, count}
use casket.Server.Streams.{new_stream}
use casket.Server.{
  Server, Turn, Outcome, next, panicked, each, handle_events, run_turn, check_running, start,
  new_unix_streams,
}
use casket.Server.Answered.{AllAnswer, Carried, events-IsOwed}

Goes-not_panicked : (o : Outcome) → Goes (λ _. Unit) o → o ≢ panicked
Goes-not_panicked o h e = subst (Goes (λ _. Unit)) e h

-- Nothing has been asked about.
abbrev pub nothing : ℕ → ℕ
nothing k = 0

new_unix_streams_idle :
    (n tk_num : ℕ)
    → (kept_tokens (new_unix_streams n tk_num) ≡ [])
      × (closed_tokens (new_unix_streams n tk_num) ≡ [])
      × (length (new_unix_streams n tk_num) ≡ n)
unfolding new_unix_streams new_stream ServerBuffer.new
new_unix_streams_idle zero tk_num = (refl, refl, refl)
new_unix_streams_idle (suc n) tk_num =
    let (kept, closed, len) = new_unix_streams_idle n (tk_num + 1) in (kept, closed, ap suc len)

start-IsOwed : (n : ℕ) → 0 < n → IsOwed nothing (start n)
unfolding start
start-IsOwed n h =
    let (kept, closed, len) = new_unix_streams_idle n 1 in
    record {
      has_worker = omega (arith, len);
      owes = λ k. omega (arith, ap (count k) kept, ap (count k) closed);
    }

module _ (requests : Format Request) (responses : Format Response) where
  -- In the round, the workers' answers have been asked about when they are read.
  abbrev pub TurnAnswers : Config → Turn → ((ℕ → ℕ) → Server → Type 0) → (ℕ → ℕ) → Server → Type 0
  TurnAnswers cfg t Then asked s =
      (s' : Server)
      → before_events cfg t s ≡ next s'
      → AllAnswer requests responses cfg t Then asked t.events (check_running t s')

  run_turn-IsOwed :
      (Then : (ℕ → ℕ) → Server → Type 0) (asked : ℕ → ℕ) (cfg : Config) (t : Turn) (s : Server)
      → IsOwed asked s
      → TurnAnswers cfg t Then asked s
      → Goes (Carried requests responses Then) (run_turn requests responses cfg t s)
  unfolding run_turn before_events handle_events
  run_turn-IsOwed Then asked cfg t s h answers =
      >>=-Goes (HasNoneWaiting asked) (Carried requests responses Then) (before_events cfg t s)
        (handle_events requests responses cfg t) (before_events-Goes asked cfg t s h)
        (λ s' e (h', _, _).
          events-IsOwed requests responses Then asked cfg t t.events (check_running t s')
            (check_running-IsOwed asked t s' h') (answers s' e))

  unfoldable pub run_turns : Config → List Turn → Server → Outcome
  run_turns cfg = each (run_turn requests responses cfg)

  -- The same in each round.
  unfoldable pub AllTurnsAnswer : Config → List Turn → (ℕ → ℕ) → Server → Type 0
  AllTurnsAnswer cfg [] asked s = Unit
  AllTurnsAnswer cfg (t ∷ ts) asked s = TurnAnswers cfg t (AllTurnsAnswer cfg ts) asked s

  run_turns-Goes :
      (cfg : Config) (ts : List Turn) (asked : ℕ → ℕ) (s : Server)
      → IsOwed asked s
      → AllTurnsAnswer cfg ts asked s
      → Goes (λ _. Unit) (run_turns cfg ts s)
  unfolding run_turns AllTurnsAnswer
  run_turns-Goes cfg [] asked s h all = tt
  run_turns-Goes cfg (t ∷ ts) asked s h answers =
      >>=-Goes (Carried requests responses (AllTurnsAnswer cfg ts)) (λ _. Unit)
        (run_turn requests responses cfg t s) (run_turns cfg ts)
        (run_turn-IsOwed (AllTurnsAnswer cfg ts) asked cfg t s h answers)
        (λ s' _ (asked', h', all). run_turns-Goes cfg ts asked' s' h' all)

  -- However the clients and the operating system behave, no number of rounds from the start of the
  -- server panics, if there is a worker, if whatever the workers' sockets hand over holds only answers
  -- about tokens that requests for the workers have named since the last answer about them, and if no
  -- stream is handed over under a token that is still asked about or whose answer waits.
  pub run_turns-not_panicked :
      (cfg : Config) (num_workers : ℕ) (ts : List Turn)
      → 0 < num_workers
      → AllTurnsAnswer cfg ts nothing (start num_workers)
      → run_turns cfg ts (start num_workers) ≢ panicked
  run_turns-not_panicked cfg num_workers ts some_worker answers =
      Goes-not_panicked (run_turns cfg ts (start num_workers)) (
        run_turns-Goes cfg ts nothing (start num_workers) (start-IsOwed num_workers some_worker)
          answers)
