-- ===== src/Worker/Loop/Rounds.antt =====
-- A whole round after its poll: no stream is lost, or is in two places.
use casket.Base.{
  ℕ, ◌+◌, ◌≡◌, refl, sym, ap, subst, ◌∙◌, inl, inr, some, Option-cases, List, [], ◌∷◌, ◌++◌, Bytes,
  Result, arith,
}
use casket.Base.Map.{lookup, remove, remove-IsMap}
use casket.Config.{Config}
use casket.Msgs.WorkerBuffer.{WorkerMsgBuffer}
use casket.Msgs.Wire.{Request, Response, Format}
use casket.Worker.Actions.{ActionResult, new_408_timeout, new_504_gateway_timeout}
use casket.Worker.Events.{Event, Timeout, request_read, python_code}
use casket.Worker.Loop.{
  Round, Turn, and_then, push_result, set_worker, handle_events, handle_timeout, handle_timeouts,
  drain_results, reregister_unix, handle_all,
}
use casket.Worker.Loop.Conserved.{handle_results-Flows}
use casket.Worker.Loop.Moved.{moved, responds, sum, Flows}
use casket.Worker.Loop.Flow.{one, in_map, in_map-remove, places, AreMaps}
use casket.Worker.PythonThreads.{timeout_request}
use casket.Worker.Reader.{Library}
use casket.Worker.{Worker}
use casket.Worker.Loop.Brings.{sum-append}
use casket.Worker.Loop.Placed.{Continues, and_then-Continues, InRound, or_fail-Continues}
use casket.Worker.Loop.EventSteps.{AllExpected, handle_events-InRound}

-- Between two drains no response of Python code is among the results.
record IsSettled {Method Url : Type 0} (r : Round Method Url) : Type 0 where
  pub flows : Flows r.worker r.results
  pub no_response : (k : ℕ) → sum responds k r.results ≡ 0

module _ {Method Url : Type 0} where
  -- The stream of `tk` has been taken out of a map, and a result brings it.
  pushed-IsSettled :
      (tk : ℕ) (r : Round Method Url) (w : Worker Method Url) (a : ActionResult Method Url)
      → IsSettled r
      → AreMaps w
      → w.msg_buf ≡ r.worker.msg_buf
      → ((k : ℕ) → places k w + one tk k ≡ places k r.worker)
      → ((k : ℕ) → (moved k a ≡ one tk k) × (responds k a ≡ 0))
      → IsSettled (push_result a (set_worker w r))
  pushed-IsSettled tk r w a h m same taken brings =
      let none_responds : (k : ℕ) → sum responds k (r.results ++ a ∷ []) ≡ 0 = λ k.
        sum-append responds k r.results (a ∷ []) ∙ (omega (arith, h.no_response k, brings k)) in
      record {
        flows = record {
          maps = m;
          balanced = λ k. omega (
            arith,
            h.flows.balanced k,
            taken k,
            brings k,
            sum-append moved k r.results (a ∷ []),
            ap (λ (b : WorkerMsgBuffer). in_map k b.server_fds) same,
          );
          expected = λ k. omega (arith, none_responds k);
        };
        no_response = none_responds;
      }

  handle_timeout-IsSettled :
      (t : Turn Method Url) (tk : ℕ) (ev : Timeout) (r : Round Method Url)
      → IsSettled r
      → Continues IsSettled (some (handle_timeout t tk ev r))
  unfolding handle_timeout new_408_timeout new_504_gateway_timeout
  handle_timeout-IsSettled t tk request_read r h =
      elim (Option-cases (lookup tk r.worker.server_reading_streams)) [
        | inl e ↦ rw (e, handle_timeout) h
        | inr (s, e) ↦
            rw (e, handle_timeout)
              (or_fail-Continues IsSettled _ _ (
                pushed-IsSettled tk r
                  (record (r.worker) {
                    server_reading_streams = remove tk r.worker.server_reading_streams;
                  })
                  _ h
                  (record {
                    reading = remove-IsMap tk r.worker.server_reading_streams h.flows.maps.reading;
                    pending = h.flows.maps.pending;
                    writing = h.flows.maps.writing;
                    casket = h.flows.maps.casket;
                    fds = h.flows.maps.fds;
                  })
                  refl
                  (λ k. omega (
                    arith,
                    in_map-remove tk k s r.worker.server_reading_streams h.flows.maps.reading e,
                  ))
                  (λ k. (refl, refl))))
      ]
  handle_timeout-IsSettled t tk python_code r h =
      elim (Option-cases (lookup tk r.worker.server_pending_streams)) [
        | inl e ↦ rw (e, handle_timeout) h
        | inr (s, e) ↦
            rw (e, handle_timeout)
              (pushed-IsSettled tk r
                (record (r.worker) {
                  server_pending_streams = remove tk r.worker.server_pending_streams;
                  python_threads = timeout_request tk r.worker.python_threads;
                })
                _ h
                (record {
                  reading = h.flows.maps.reading;
                  pending = remove-IsMap tk r.worker.server_pending_streams h.flows.maps.pending;
                  writing = h.flows.maps.writing;
                  casket = h.flows.maps.casket;
                  fds = h.flows.maps.fds;
                })
                refl
                (λ k. omega (
                  arith,
                  in_map-remove tk k s r.worker.server_pending_streams h.flows.maps.pending e,
                ))
                (λ k. (refl, refl)))
      ]

  handle_timeouts-IsSettled :
      (lib : Library Method Url) (requests : Format Request) (responses : Format Response)
      (t : Turn Method Url) (evs : List (ℕ × Timeout)) (r : Round Method Url)
      → IsSettled r
      → Continues IsSettled (handle_timeouts lib requests responses t evs r)
  unfolding handle_timeouts
  handle_timeouts-IsSettled lib requests responses t [] r h = h
  handle_timeouts-IsSettled lib requests responses t ((tk, ev) ∷ evs) r h =
      and_then-Continues IsSettled IsSettled (some (handle_timeout t tk ev r))
        (handle_timeouts lib requests responses t evs) (handle_timeout-IsSettled t tk ev r h)
        (λ r' e h'. handle_timeouts-IsSettled lib requests responses t evs r' h')

  -- Behind a drain, the results are done.
  abbrev pub IsDrained : Round Method Url → Type 0
  IsDrained r = Flows r.worker [] × (r.results ≡ [])

  drain_results-IsDrained :
      (lib : Library Method Url) (requests : Format Request) (responses : Format Response)
      (cfg : Config) (now : ℕ) (answers : ℕ → Result Bytes (Unit {0})) (r : Round Method Url)
      → Flows r.worker r.results
      → Continues IsDrained (drain_results lib requests responses cfg now answers r)
  unfolding drain_results
  drain_results-IsDrained lib requests responses cfg now answers r h =
      elim (handle_results-Flows responses cfg now answers 0 r.results r.worker h) [
        | inl panics ↦ rw (panics, drain_results) tt
        | inr (w', run, flows) ↦ rw (run, drain_results) (flows, refl)
      ]

  InRound-Flows : (r : Round Method Url) → InRound [] r → Flows r.worker r.results
  InRound-Flows r h = record {
    maps = h.maps;
    balanced = λ k. omega (arith, h.balanced k);
    expected = h.expected;
  }

  drained-IsSettled : (r : Round Method Url) → IsDrained r → IsSettled (record r { timeouts = [] })
  drained-IsSettled r (flows, done) = record {
    flows = subst (Flows r.worker) (sym done) flows;
    no_response = λ k. ap (sum responds k) done;
  }

  reregister_unix-IsDrained :
      (lib : Library Method Url) (requests : Format Request) (responses : Format Response)
      (t : Turn Method Url) (r : Round Method Url)
      → IsDrained r
      → Continues IsDrained (reregister_unix lib requests responses t r)
  unfolding reregister_unix
  reregister_unix-IsDrained lib requests responses t r (flows, done) =
      or_fail-Continues IsDrained _ _ (
        record {
          maps = record {
            reading = flows.maps.reading;
            pending = flows.maps.pending;
            writing = flows.maps.writing;
            casket = flows.maps.casket;
            fds = flows.maps.fds;
          };
          balanced = flows.balanced;
          expected = flows.expected;
        },
        done,
      )

module _ {Method Url : Type 0} (lib : Library Method Url) (requests : Format Request)
    (responses : Format Response) where
  -- Before the events of a round, let every stream about which the server awaits an answer be in
  -- exactly one of the worker's maps, brought by one result or one that the server has just sent,
  -- and let the threads answer only what is pending, once. Then a round that does not end the worker
  -- has carried out all its results, and behind it every stream about which the server awaits an
  -- answer is in exactly one map, and no other stream is in any: none is lost,
  -- whatever the streams, the timers and mio do.
  pub handle_all-IsDrained :
      (cfg : Config) (t : Turn Method Url) (events : List (ℕ × Event)) (r : Round Method Url)
      → InRound events r
      → AllExpected lib requests cfg t events r
      → Continues IsDrained (handle_all lib requests responses cfg t events r)
  unfolding handle_all
  handle_all-IsDrained cfg t events r h ex =
      let drain = drain_results lib requests responses cfg t.now in
      let handled = handle_events lib requests responses cfg t events r in
      let drained = and_then handled (drain t.registry) in
      let late = λ (r : Round Method Url).
        handle_timeouts lib requests responses t r.timeouts (record r { timeouts = [] }) in
      and_then-Continues IsDrained IsDrained
        (and_then (and_then drained late) (drain t.timeout_registry))
        (reregister_unix lib requests responses t)
        (and_then-Continues IsSettled IsDrained (and_then drained late) (drain t.timeout_registry)
          (and_then-Continues IsDrained IsSettled drained late
            (and_then-Continues (InRound []) IsDrained handled (drain t.registry)
              (handle_events-InRound lib requests responses cfg t events r h ex)
              (λ r₁ _ h₁.
                drain_results-IsDrained lib requests responses cfg t.now t.registry r₁
                  (InRound-Flows r₁ h₁)))
            (λ r₂ _ h₂.
              handle_timeouts-IsSettled lib requests responses t r₂.timeouts
                (record r₂ { timeouts = [] }) (drained-IsSettled r₂ h₂)))
          (λ r₃ _ h₃.
            drain_results-IsDrained lib requests responses cfg t.now t.timeout_registry r₃
              h₃.flows))
        (λ r₄ _ h₄. reregister_unix-IsDrained lib requests responses t r₄ h₄)
