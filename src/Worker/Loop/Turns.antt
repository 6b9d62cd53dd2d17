-- ===== src/Worker/Loop/Turns.antt =====
-- The worker's loop over many rounds.
use casket.Base.{
  OnSome, ℕ, ◌≡◌, refl, ap, subst, inl, inr, Bool-cases, Option, none, some, List, [], ◌∷◌, ◌++◌,
  Bytes, Result, ok, err, arith, ◌&&◌,
}
use casket.Config.{Config}
use casket.Errors.{RuntimeError}
use casket.Msgs.Wire.{Request, Response, Format}
use casket.Msgs.WorkerBuffer.{WorkerMsgBuffer, next_stream_fd, read_unix_stream, has_data_to_send}
use casket.Worker.Events.{Event}
use casket.Worker.Loop.{
  Round, Turn, Outcome, next, stopped, failed, or_fail, set_worker, handle_all, pending_events,
  is_idle, run_turn, run_turns, start, run_worker,
}
use casket.Worker.Loop.EventSteps.{AllExpected}
use casket.Worker.Loop.Moved.{moved, responds, sum}
use casket.Worker.Loop.Placed.{Continues, and_then-Continues, or_fail-Continues, InRound, coming}
use casket.Worker.Loop.Polls.{Polls}
use casket.Worker.Loop.Rounds.{IsDrained, handle_all-IsDrained}
use casket.Worker.Poller.Plain.{ArePlain, Ticks, tick-Ticks}
use casket.Worker.Loop.Incoming.{
  IsFresh, Takes, pending_events-Takes, coming-append, coming-ArePlain,
}
use casket.Msgs.WorkerBuffer
use casket.Worker.Poller
use casket.Worker.Poller.{Poller, tick, expect_read}
use casket.Http.{HttpRequest}
use casket.Workq.{Sender}
use casket.Worker.Reader.{Library}
use casket.Worker.{◌>>=◌}
use casket.Worker.Loop.PollsRound.{RoundPolls, handle_all-Polls}

module _ {Method Url : Type 0} where
  -- Between two rounds.
  abbrev pub IsSteady : Round Method Url → Type 0
  IsSteady r = IsDrained r × Polls r.worker

  Continues-both :
      (P Q : Round Method Url → Type 0) (o : Option (Outcome Method Url))
      → Continues P o
      → Continues Q o
      → Continues (λ r. P r × Q r) o
  Continues-both P Q none h h' = tt
  Continues-both P Q (some (next r)) h h' = (h, h')
  Continues-both P Q (some stopped) h h' = tt
  Continues-both P Q (some (failed e)) h h' = tt

  >>=-Continues :
      {A : Type 0} (P : A → Type 0) (Q : Round Method Url → Type 0) (o : Option A)
      (g : A → Option (Outcome Method Url))
      → OnSome P o
      → ((a : A) → o ≡ some a → P a → Continues Q (g a))
      → Continues Q (o >>= g)
  >>=-Continues P Q none g h step = tt
  >>=-Continues P Q (some a) g h step = step a refl h

  -- What the server has sent is about to be handled, and nothing else is.
  ticked-InRound :
      (r : Round Method Url) (b : WorkerMsgBuffer) (p : Poller) (events out more : List (ℕ × Event))
      → IsDrained r
      → Takes r.worker.msg_buf b events
      → out ≡ events ++ more
      → ArePlain more
      → InRound out (set_worker (record (r.worker) { msg_buf = b; poll = p }) r)
  ticked-InRound r b p events out more (flows, done) taken e plain = record {
    maps = record {
      reading = flows.maps.reading;
      pending = flows.maps.pending;
      writing = flows.maps.writing;
      casket = flows.maps.casket;
      fds = taken.fds;
    };
    balanced = λ k. omega (
      arith,
      flows.balanced k,
      taken.grown k,
      ap (sum moved k) done,
      ap (coming k) e,
      coming-append k events more,
      coming-ArePlain k more plain,
    );
    expected = λ k. omega (arith, ap (sum responds k) done);
  }

module _ {Method Url : Type 0} (lib : Library Method Url) (requests : Format Request)
    (responses : Format Response) where
  -- The threads answer only what is pending, once, whatever events the poll has brought.
  unfoldable pub ExpectedTurn : Config → Turn Method Url → Round Method Url → Type 0
  ExpectedTurn cfg t r =
      let (b, events) = pending_events lib requests responses r.worker in
      OnSome
        (λ ticked.
          AllExpected lib requests cfg t ticked.1
            (set_worker (record (r.worker) { msg_buf = b; poll = ticked.0 }) r))
        (tick t.now t.poll r.worker.poll events)

  -- What `handle_all` asks for.
  Ready : Config → Turn Method Url → List (ℕ × Event) → Round Method Url → Type 0
  Ready cfg t events r =
      (InRound events r × AllExpected lib requests cfg t events r) × Polls r.worker

  handle_all-IsSteady :
      (cfg : Config) (t : Turn Method Url) (events : List (ℕ × Event)) (r : Round Method Url)
      → Ready cfg t events r
      → Continues IsSteady (handle_all lib requests responses cfg t events r)
  unfolding Ready
  handle_all-IsSteady cfg t events r ((h, ex), polls) =
      Continues-both IsDrained RoundPolls _
        (handle_all-IsDrained lib requests responses cfg t events r h ex)
        (handle_all-Polls lib requests responses cfg t events r polls)

  ticked-Ready :
      (cfg : Config) (t : Turn Method Url) (r : Round Method Url)
      (ticked : Poller × List (ℕ × Event) × Result RuntimeError (Unit {0}))
      → IsFresh r.worker.msg_buf
      → ExpectedTurn cfg t r
      → IsSteady r
      → tick t.now t.poll r.worker.poll (pending_events lib requests responses r.worker).1
        ≡ some ticked
      → Ticks (pending_events lib requests responses r.worker).1 ticked
      → Ready cfg t ticked.1 (
          set_worker
            (record (r.worker) {
              msg_buf = (pending_events lib requests responses r.worker).0;
              poll = ticked.0;
            })
            r)
  unfolding ExpectedTurn Ready
  ticked-Ready cfg t r ticked fresh ex h got (polls, (more, all, plain)) =
      let (b, events) = pending_events lib requests responses r.worker in
      let taken = pending_events-Takes lib requests responses r.worker h.0.0.maps.fds fresh in
      let expects = λ (ticked : Poller × List (ℕ × Event) × Result RuntimeError (Unit {0})).
        AllExpected lib requests cfg t ticked.1
          (set_worker (record (r.worker) { msg_buf = b; poll = ticked.0 }) r) in
      (
        (
          ticked-InRound r b ticked.0 events ticked.1 more h.0 taken all plain,
          subst (OnSome expects) got ex,
        ),
        polls,
      )

  run_turn-IsSteady :
      (cfg : Config) (t : Turn Method Url) (r : Round Method Url)
      → IsFresh r.worker.msg_buf
      → ExpectedTurn cfg t r
      → IsSteady r
      → Continues IsSteady (run_turn lib requests responses cfg t r)
  unfolding run_turn
  run_turn-IsSteady cfg t r fresh ex h =
      elim (Bool-cases (r.closing && is_idle lib requests responses r.worker)) [
        | inl e ↦ rw (e, run_turn) tt
        | inr e ↦
            let (b, events) = pending_events lib requests responses r.worker in
            rw (e, run_turn)
              (>>=-Continues (Ticks events) IsSteady (tick t.now t.poll r.worker.poll events) _
                (tick-Ticks t.now t.poll r.worker.poll events h.1)
                (λ ticked got ticks.
                  let r' = set_worker (record (r.worker) { msg_buf = b; poll = ticked.0 }) r in
                  and_then-Continues (Ready cfg t ticked.1) IsSteady (some (or_fail ticked.2 r'))
                    (handle_all lib requests responses cfg t ticked.1)
                    (or_fail-Continues (Ready cfg t ticked.1) ticked.2 r'
                      (ticked-Ready cfg t r ticked fresh ex h got ticks))
                    (λ r'' _ ready. handle_all-IsSteady cfg t ticked.1 r'' ready)))
      ]

  -- At every round, the server names no stream twice, and none that it awaits an answer about, and
  -- the threads answer only what is pending, once.
  unfoldable pub FairTurns : Config → List (Turn Method Url) → Round Method Url → Type 0
  unfolding ExpectedTurn
  FairTurns cfg [] r = Unit
  FairTurns cfg (t ∷ ts) r =
      (IsFresh r.worker.msg_buf × ExpectedTurn cfg t r)
      × Continues (FairTurns cfg ts) (run_turn lib requests responses cfg t r)

  run_turns-IsSteady :
      (cfg : Config) (ts : List (Turn Method Url)) (r : Round Method Url)
      → IsSteady r
      → FairTurns cfg ts r
      → Continues IsSteady (run_turns lib requests responses cfg ts r)
  unfolding run_turns FairTurns
  run_turns-IsSteady cfg [] r h fair = h
  run_turns-IsSteady cfg (t ∷ ts) r h ((fresh, ex), fair) =
      let turn = run_turn lib requests responses cfg t r in
      and_then-Continues (λ r. IsSteady r × FairTurns cfg ts r) IsSteady turn
        (run_turns lib requests responses cfg ts)
        (Continues-both IsSteady (FairTurns cfg ts) turn (run_turn-IsSteady cfg t r fresh ex h)
          fair)
        (λ r' _ (h', fair'). run_turns-IsSteady cfg ts r' h' fair')

  start-IsSteady :
      (application : Sender (ℕ × HttpRequest Method Url))
      (created registered : Result Bytes (Unit {0}))
      → Continues IsSteady (start lib requests responses application created registered)
  unfolding start Poller.new WorkerBuffer.new expect_read
  start-IsSteady application (err e) registered = tt
  start-IsSteady application (ok _) (err e) = tt
  start-IsSteady application (ok _) (ok _) = (
    (
      record {
        maps = record { reading = tt; pending = tt; writing = tt; casket = tt; fds = tt };
        balanced = λ k. refl;
        expected = λ k. omega arith;
      },
      refl,
    ),
    record { reads = (tt, tt); writes = tt; timers = tt },
  )

  -- From the start of the worker and over any number of rounds, let the server name no stream twice,
  -- and none that it awaits an answer about, and let the threads answer only what is pending, once.
  -- Then behind the rounds, unless the worker has ended or panicked, all results are carried out,
  -- every stream about which the server awaits an answer is in exactly one of the worker's four
  -- maps, no other stream is in any, and the poller keeps no event that a stream comes from the
  -- server, whatever the streams, the timers and mio do.
  pub run_worker-IsSteady :
      (cfg : Config) (application : Sender (ℕ × HttpRequest Method Url))
      (created registered : Result Bytes (Unit {0})) (ts : List (Turn Method Url))
      → Continues (FairTurns cfg ts) (start lib requests responses application created registered)
      → Continues IsSteady (run_worker lib requests responses cfg application created registered ts)
  unfolding run_worker
  run_worker-IsSteady cfg application created registered ts fair =
      let started = start lib requests responses application created registered in
      and_then-Continues (λ r. IsSteady r × FairTurns cfg ts r) IsSteady started
        (run_turns lib requests responses cfg ts)
        (Continues-both IsSteady (FairTurns cfg ts) started
          (start-IsSteady application created registered) fair)
        (λ r _ (h, fair). run_turns-IsSteady cfg ts r h fair)
