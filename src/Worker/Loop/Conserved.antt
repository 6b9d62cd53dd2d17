-- ===== src/Worker/Loop/Conserved.antt =====
-- The results of a round: no stream is lost, answered twice, or in two places.
use casket.Base.{
  ℕ, suc, ◌≡◌, refl, ap, ◌∙◌, inl, inr, false, Option, none, some, ◌⊎◌, Option-cases, List, [], ◌∷◌,
  Bytes, Result, ok, err, arith,
}
use casket.Base.Map.{Map, lookup, remove, remove-IsMap}
use casket.Config.{Config}
use casket.Http.{HttpResponse, HttpError, io, header_parse, bad_value}
use casket.Msgs.Wire.{Response, Format}
use casket.Msgs.WorkerBuffer.Respond.{io_error, bad_client, done_ok, stream_reg_error, reply}
use casket.Worker.Actions.{
  Action, ActionResult, new_server_request, server_continue_read, server_read_done,
  server_stream_eof, server_new_response, server_continue_write, server_done_write,
  server_casket_response_new, server_casket_response_continue, server_casket_response_done,
  server_python_code_timeout_new,
}
use casket.Worker.Events.{server_stream_read}
use casket.Worker.Loop.{handle_result, handle_results}
use casket.Worker.Loop.Flow.{
  one, in_map, in_map-le, in_map-remove, places, AreMaps, Ends, put_reading, put_pending,
  put_writing, put_casket, reply-Ends, unless_err-Ends,
}
use casket.Worker.Poller.{expect_read, expect_write, timer_event}
use casket.Worker.PythonThreads.{queue_http_req}
use casket.Worker.Reader
use casket.Worker.Writer
use casket.Worker.{Worker, handle_action, handle_error, answer_error, unless_err, add_time, ◌>>=◌}
use casket.Worker.Loop.Moved.{moved, Flows, Carries, Carries-Flows}

lookup-of_in_map :
    {V : Type 0} (k : ℕ) (m : Map V) → in_map k m ≡ 1 → (v : V) × (lookup k m ≡ some v)
lookup-of_in_map k m h = elim (Option-cases (lookup k m)) [
  | inl e ↦ ground arith
  | inr found ↦ found
]

module _ {Method Url : Type 0} (f : Format Response) where
  abbrev Runs : ActionResult Method Url → Worker Method Url → Option (Worker Method Url) → Type 0
  Runs a w o = (w' : Worker Method Url) × (o ≡ some w') × Carries a w w'

  -- It is carried out, unless a timer would be beyond the end of time.
  abbrev Passes : ActionResult Method Url → Worker Method Url → Option (Worker Method Url) → Type 0
  Passes a w o = (o ≡ none) ⊎ Runs a w o

  Ends-Runs :
      (a : ActionResult Method Url) (tk : ℕ) (w : Worker Method Url)
      (o : Option (Worker Method Url))
      → ((k : ℕ) → moved k a ≡ one tk k)
      → Ends f tk w o
      → Runs a w o
  Ends-Runs a tk w o same (w', run, s) = (
    w',
    run,
    record {
      maps = s.maps;
      conserved = λ k. omega (arith, s.conserved k, same k);
      pending_kept = λ k. omega (arith, s.pending_kept k);
    },
  )

  -- A result that brings its stream: it is in no map, and the server awaits an answer.
  brings-Runs :
      (a : ActionResult Method Url) (tk : ℕ) (rest : List (ActionResult Method Url))
      (w : Worker Method Url) (o : Option (Worker Method Url))
      → ((k : ℕ) → moved k a ≡ one tk k)
      → Flows w (a ∷ rest)
      → (places tk w ≡ 0 → (fd : ℕ) → lookup tk w.msg_buf.server_fds ≡ some fd → Ends f tk w o)
      → Runs a w o
  brings-Runs a tk rest w o same h ends =
      let le = in_map-le tk w.msg_buf.server_fds in
      let self : one tk tk ≡ 1 = ground arith in
      let (fd, opened) =
        lookup-of_in_map tk w.msg_buf.server_fds
          (omega (arith, h.balanced tk, le, self, same tk)) in
      Ends-Runs a tk w o same (ends (omega (arith, h.balanced tk, le, self, same tk)) fd opened)

  -- The worker once the stream of a response is pending no more.
  abbrev not_pending : ℕ → Worker Method Url → Worker Method Url
  not_pending tk w = record w { server_pending_streams = remove tk w.server_pending_streams }

  not_pending-AreMaps : (tk : ℕ) (w : Worker Method Url) → AreMaps w → AreMaps (not_pending tk w)
  not_pending-AreMaps tk w m = record {
    reading = m.reading;
    pending = remove-IsMap tk w.server_pending_streams m.pending;
    writing = m.writing;
    casket = m.casket;
    fds = m.fds;
  }

  -- A response, whose stream is pending.
  response-Runs :
      (tk stream : ℕ) (resp : HttpResponse Method Url) (rest : List (ActionResult Method Url))
      (w : Worker Method Url) (o : Option (Worker Method Url))
      → lookup tk w.server_pending_streams ≡ some stream
      → Flows w (ok (server_new_response tk resp) ∷ rest)
      → (places tk (not_pending tk w) ≡ 0
          → (fd : ℕ) → lookup tk w.msg_buf.server_fds ≡ some fd
          → Ends f tk (not_pending tk w) o)
      → Runs (ok (server_new_response tk resp)) w o
  response-Runs tk stream resp rest w o pending h ends =
      let removed =
        λ (k : ℕ). in_map-remove tk k stream w.server_pending_streams h.maps.pending pending in
      let le = in_map-le tk w.msg_buf.server_fds in
      let self : one tk tk ≡ 1 = ground arith in
      let (fd, opened) =
        lookup-of_in_map tk w.msg_buf.server_fds
          (omega (arith, h.balanced tk, le, self, removed tk)) in
      let (w', run, s) = ends (omega (arith, h.balanced tk, le, self, removed tk)) fd opened in
      (
        w',
        run,
        record {
          maps = s.maps;
          conserved = λ k. omega (arith, s.conserved k, removed k);
          pending_kept = λ k. omega (arith, s.pending_kept k, removed k);
        },
      )

  -- Where mio refuses the stream, no time is computed.
  late_request :
      (tk stream : ℕ) (r : Result Bytes (Unit {0})) (rest : List (ActionResult Method Url))
      (w : Worker Method Url)
      → Flows w (ok (new_server_request tk stream) ∷ rest)
      → Passes
          (ok (new_server_request tk stream))
          w
          (unless_err f r tk (record w { poll = expect_read tk server_stream_read w.poll }) none)
  unfolding expect_read reply
  late_request tk stream (ok _) rest w h = inl refl
  late_request tk stream (err x) rest w h = inr (
      brings-Runs _ tk rest w _ (λ k. refl) h
        (λ absent fd e.
          reply-Ends f tk fd w (expect_read tk server_stream_read w.poll) (stream_reg_error x)
            h.maps e))

  handle_action-Passes :
      (cfg : Config) (now : ℕ) (r : Result Bytes (Unit {0})) (act : Action Method Url)
      (rest : List (ActionResult Method Url)) (w : Worker Method Url)
      → Flows w (ok act ∷ rest)
      → Passes (ok act) w (handle_action f cfg now r act w)
  unfolding handle_action expect_read expect_write timer_event reply
  handle_action-Passes cfg now r (new_server_request tk stream) rest w h =
      elim (Option-cases (add_time now cfg.request_read_timeout)) [
        | inl late ↦ rw (late, handle_action) (late_request tk stream r rest w h)
        | inr (n, early) ↦
            rw (early, handle_action)
              (inr (
                brings-Runs _ tk rest w _ (λ k. refl) h
                  (λ absent fd e.
                    unless_err-Ends f tk fd w _ r _ h.maps e
                      (_, refl, put_reading tk w _ h.maps absent (stream, Reader.new)))))
      ]
  handle_action-Passes cfg now r (server_continue_read tk reader stream) rest w h = inr (
      brings-Runs _ tk rest w _ (λ k. refl) h
        (λ absent fd e.
          unless_err-Ends f tk fd w _ r _ h.maps e
            (_, refl, put_reading tk w _ h.maps absent (stream, reader))))
  handle_action-Passes cfg now r (server_read_done tk req stream) rest w h = inr (
      brings-Runs _ tk rest w _ (λ k. refl) h
        (λ absent fd e. unless_err-Ends f tk fd w w.poll r _ h.maps e (
          _,
          refl,
          put_pending tk w w.poll h.maps absent stream (queue_http_req tk req w.python_threads),
        )))
  handle_action-Passes cfg now r (server_stream_eof tk stream) rest w h = inr (
      brings-Runs _ tk rest w _ (λ k. refl) h
        (λ absent fd e.
          unless_err-Ends f tk fd w w.poll r _ h.maps e
            (reply-Ends f tk fd w w.poll (done_ok stream false) h.maps e)))
  handle_action-Passes cfg now r (server_new_response tk resp) rest w h =
      inr (elim (Option-cases (lookup tk w.server_pending_streams)) [
        | inl none_e ↦
            let self : one tk tk ≡ 1 = ground arith in
            let absent : in_map tk w.server_pending_streams ≡ 0 = ground (arith, none_e) in
            absurd (omega (arith, h.expected tk, self, absent))
        | inr (stream, some_e) ↦
            rw (some_e, handle_action)
              (response-Runs tk stream resp rest w _ some_e h (λ absent fd e.
                let m = not_pending-AreMaps tk w h.maps in
                unless_err-Ends f tk fd (not_pending tk w) _ r _ m e (
                  _,
                  refl,
                  put_writing tk (not_pending tk w) _ m absent (stream, Writer.new resp),
                )))
      ])
  handle_action-Passes cfg now r (server_continue_write tk writer stream) rest w h = inr (
      brings-Runs _ tk rest w _ (λ k. refl) h
        (λ absent fd e.
          unless_err-Ends f tk fd w _ r _ h.maps e
            (_, refl, put_writing tk w _ h.maps absent (stream, writer))))
  handle_action-Passes cfg now r (server_done_write tk resp stream) rest w h = inr (
      brings-Runs _ tk rest w _ (λ k. refl) h
        (λ absent fd e.
          unless_err-Ends f tk fd w w.poll r _ h.maps e
            (reply-Ends f tk fd w w.poll (done_ok stream resp.keep_alive) h.maps e)))
  handle_action-Passes cfg now r (server_casket_response_new tk stream resp) rest w h = inr (
      brings-Runs _ tk rest w _ (λ k. refl) h
        (λ absent fd e.
          unless_err-Ends f tk fd w _ r _ h.maps e
            (_, refl, put_casket tk w _ h.maps absent (stream, resp))))
  handle_action-Passes cfg now r (server_casket_response_continue tk stream resp) rest w h = inr (
      brings-Runs _ tk rest w _ (λ k. refl) h
        (λ absent fd e.
          unless_err-Ends f tk fd w _ r _ h.maps e
            (_, refl, put_casket tk w _ h.maps absent (stream, resp))))
  handle_action-Passes cfg now r (server_casket_response_done tk stream resp) rest w h = inr (
      brings-Runs _ tk rest w _ (λ k. refl) h
        (λ absent fd e.
          unless_err-Ends f tk fd w w.poll r _ h.maps e
            (reply-Ends f tk fd w w.poll (done_ok stream false) h.maps e)))
  handle_action-Passes cfg now r (server_python_code_timeout_new tk st) rest w h =
      elim (Option-cases (add_time st cfg.python_code_timeout)) [
        | inl late ↦ rw (late, handle_action) (inl refl)
        | inr (n, early) ↦
            rw (early, handle_action)
              (inr (
                _,
                refl,
                record {
                  maps = record {
                    reading = h.maps.reading;
                    pending = h.maps.pending;
                    writing = h.maps.writing;
                    casket = h.maps.casket;
                    fds = h.maps.fds;
                  };
                  conserved = λ k. omega arith;
                  pending_kept = λ k. omega arith;
                },
              ))
      ]

  answer_error-Ends :
      (e : HttpError) (tk fd : ℕ) (w : Worker Method Url)
      → AreMaps w
      → lookup tk w.msg_buf.server_fds ≡ some fd
      → Ends f tk w (answer_error f e tk w)
  unfolding answer_error reply
  answer_error-Ends (io why text) tk fd w m e = reply-Ends f tk fd w w.poll (io_error text) m e
  answer_error-Ends (header_parse x) tk fd w m e = reply-Ends f tk fd w w.poll bad_client m e
  answer_error-Ends (bad_value x) tk fd w m e = reply-Ends f tk fd w w.poll bad_client m e

  handle_result-Passes :
      (cfg : Config) (now : ℕ) (r : Result Bytes (Unit {0})) (a : ActionResult Method Url)
      (rest : List (ActionResult Method Url)) (w : Worker Method Url)
      → Flows w (a ∷ rest)
      → Passes a w (handle_result f cfg now r a w)
  unfolding handle_result handle_error
  handle_result-Passes cfg now r (ok act) rest w h = handle_action-Passes cfg now r act rest w h
  handle_result-Passes cfg now r (err x) rest w h = inr (
      brings-Runs (err x) x.token rest w _ (λ k. refl) h
        (λ absent fd e.
          unless_err-Ends f x.token fd w _ r _ h.maps e
            (answer_error-Ends x.error x.token fd w h.maps e)))

  -- If every stream about which the server awaits an answer is in one of the worker's maps or is
  -- brought by one of the results of the round, and each response of Python code finds its stream
  -- pending, then the results are carried out, whatever mio answers, unless a timer would be beyond
  -- the end of time, and behind them every such stream is in exactly one of the maps, and no other is
  -- in any.
  pub handle_results-Flows :
      (cfg : Config) (now : ℕ) (answers : ℕ → Result Bytes (Unit {0})) (n : ℕ)
      (results : List (ActionResult Method Url)) (w : Worker Method Url)
      → Flows w results
      → (handle_results f cfg now answers n results w ≡ none)
        ⊎ ((w' : Worker Method Url) × (handle_results f cfg now answers n results w ≡ some w')
            × Flows w' [])
  unfolding handle_results
  handle_results-Flows cfg now answers n [] w h = inr (w, refl, h)
  handle_results-Flows cfg now answers n (a ∷ rest) w h =
      let next : Worker Method Url → Option (Worker Method Url) =
        handle_results f cfg now answers (suc n) rest in
      elim (handle_result-Passes cfg now (answers n) a rest w h) [
        | inl panics ↦ inl (ap (λ o. o >>= next) panics)
        | inr (w₁, first, carries) ↦
            elim (handle_results-Flows cfg now answers (suc n) rest w₁
              (Carries-Flows a rest w w₁ h carries)) [
                | inl panics ↦ inl (ap (λ o. o >>= next) first ∙ panics)
                | inr (w', run, flows) ↦ inr (w', ap (λ o. o >>= next) first ∙ run, flows)
              ]
      ]
