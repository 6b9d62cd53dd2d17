-- ===== src/Worker/Loop/Placed.antt =====
-- Where every stream is while the events of a round are handled.
use casket.Base.{
  ℕ, ◌+◌, ◌≤◌, ◌≡◌, refl, sym, ap, subst, ◌∙◌, Option, none, some, List, [], ◌∷◌, Result, ok, err,
  arith,
}
use casket.Base.Map.{IsMap}
use casket.Errors.{RuntimeError}
use casket.Msgs.WorkerBuffer.{WorkerMsgBuffer}
use casket.Worker.Actions.{ActionResult}
use casket.Worker.Events.{Event, new_stream_fd}
use casket.Worker.Loop.{
  Round, Outcome, next, stopped, failed, and_then, or_fail, push_result, set_worker,
}
use casket.Worker.Loop.Moved.{moved, responds, sum}
use casket.Worker.Loop.Flow.{one, in_map, places, awaited, AreMaps}
use casket.Worker.{Worker}
use casket.Worker.Loop.Brings.{sum-append}

-- The stream about which an event is that it comes from the server.
abbrev pub coming : ℕ → List (ℕ × Event) → ℕ
coming k [] = 0
coming k ((tk, new_stream_fd fd) ∷ evs) = one tk k + coming k evs
coming k (ev ∷ evs) = coming k evs

module _ {Method Url : Type 0} where
  -- What holds where the loop goes on.
  abbrev pub Continues : (Round Method Url → Type 0) → Option (Outcome Method Url) → Type 0
  Continues P none = Unit
  Continues P (some (next r)) = P r
  Continues P (some stopped) = Unit
  Continues P (some (failed e)) = Unit

  pub and_then-Continues :
      (P Q : Round Method Url → Type 0) (o : Option (Outcome Method Url))
      (g : Round Method Url → Option (Outcome Method Url))
      → Continues P o
      → ((r : Round Method Url) → o ≡ some (next r) → P r → Continues Q (g r))
      → Continues Q (and_then o g)
  and_then-Continues P Q none g h step = tt
  and_then-Continues P Q (some (next r)) g h step = step r refl h
  and_then-Continues P Q (some stopped) g h step = tt
  and_then-Continues P Q (some (failed e)) g h step = tt

  -- Every stream about which the server awaits an answer is in one map, or brought by one result or
  -- by one event to come.
  pub record InRound (evs : List (ℕ × Event)) (r : Round Method Url) : Type 0 where
    pub maps : AreMaps r.worker
    pub balanced :
        (k : ℕ) → places k r.worker + sum moved k r.results + coming k evs ≡ awaited k r.worker
    pub expected : (k : ℕ) → sum responds k r.results ≤ in_map k r.worker.server_pending_streams

module _ {Method Url : Type 0} where
  pub or_fail-Continues :
      (P : Round Method Url → Type 0) (result : Result RuntimeError (Unit {0}))
      (r : Round Method Url)
      → P r
      → Continues P (some (or_fail result r))
  or_fail-Continues P (ok _) r h = h
  or_fail-Continues P (err e) r h = tt

  -- The buffer changes, but not the streams that it knows.
  pub set_buffer-InRound :
      (evs : List (ℕ × Event)) (r : Round Method Url) (b : WorkerMsgBuffer)
      → b.server_fds ≡ r.worker.msg_buf.server_fds
      → InRound evs r
      → InRound evs (set_worker (record (r.worker) { msg_buf = b }) r)
  set_buffer-InRound evs r b e h = record {
    maps = record {
      reading = h.maps.reading;
      pending = h.maps.pending;
      writing = h.maps.writing;
      casket = h.maps.casket;
      fds = subst IsMap (sym e) h.maps.fds;
    };
    balanced = λ k. h.balanced k ∙ ap (in_map k) (sym e);
    expected = h.expected;
  }

  -- A result is pushed that brings the stream of `tk`, which has been taken out of a map.
  pub pushed-InRound :
      (evs : List (ℕ × Event)) (tk : ℕ) (r : Round Method Url) (w : Worker Method Url)
      (a : ActionResult Method Url)
      → InRound evs r
      → AreMaps w
      → w.msg_buf ≡ r.worker.msg_buf
      → ((k : ℕ) → places k w + one tk k ≡ places k r.worker)
      → ((k : ℕ) → in_map k w.server_pending_streams ≡ in_map k r.worker.server_pending_streams)
      → ((k : ℕ) → (moved k a ≡ one tk k) × (responds k a ≡ 0))
      → InRound evs (push_result a (set_worker w r))
  pushed-InRound evs tk r w a h m same taken pending brings = record {
    maps = m;
    balanced = λ k. omega (
      arith,
      h.balanced k,
      taken k,
      brings k,
      sum-append moved k r.results (a ∷ []),
      ap (λ (b : WorkerMsgBuffer). in_map k b.server_fds) same,
    );
    expected = λ k.
        omega (arith, h.expected k, pending k, brings k, sum-append responds k r.results (a ∷ []));
  }

  -- A stream comes from the server, and a result brings it.
  pub come-InRound :
      (tk fd : ℕ) (evs : List (ℕ × Event)) (r : Round Method Url) (a : ActionResult Method Url)
      → InRound ((tk, new_stream_fd fd) ∷ evs) r
      → ((k : ℕ) → (moved k a ≡ one tk k) × (responds k a ≡ 0))
      → InRound evs (push_result a r)
  come-InRound tk fd evs r a h brings = record {
    maps = h.maps;
    balanced = λ k. omega (arith, h.balanced k, brings k, sum-append moved k r.results (a ∷ []));
    expected = λ k. omega (arith, h.expected k, brings k, sum-append responds k r.results (a ∷ []));
  }
