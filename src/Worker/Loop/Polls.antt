-- ===== src/Worker/Loop/Polls.antt =====
-- What the worker's loop leaves in its poller: no event that a stream comes from the server.
use casket.Base.{
  OnSome, ℕ, suc, false, inl, inr, Option-cases, Option, none, some, List, [], ◌∷◌, Bytes, Result,
  ok, err,
}
use casket.Base.Map.{lookup}
use casket.Config.{Config}
use casket.Http.{HttpError, io, header_parse, bad_value}
use casket.Msgs.Wire.{Response, Format}
use casket.Msgs.WorkerBuffer.{
  WorkerMsgBuffer, resp_io_error, resp_bad_client, resp_stream_reg_error, resp_stream_done_ok,
}
use casket.Worker.Actions.{
  Action, ActionResult, new_server_request, server_continue_read, server_read_done,
  server_stream_eof, server_new_response, server_continue_write, server_done_write,
  server_casket_response_new, server_casket_response_continue, server_casket_response_done,
  server_python_code_timeout_new,
}
use casket.Worker.Events.{
  Event, server_stream_read, server_stream_write, request_read_timeout, casket_response_write,
  python_code_timeout,
}
use casket.Worker.Loop.{handle_result, handle_results}
use casket.Worker.Poller.{Poller, expect_read, expect_write, reregister_rw, timer_event}
use casket.Worker.Poller.Plain.{IsPlain, KeepsPlain, insert-ArePlain, push-TimersPlain}
use casket.Worker.{
  Worker, answer, unless_err, handle_action, handle_error, answer_error, add_time, ◌>>=◌,
}

pub reads_plain :
    (tk : ℕ) (ev : Event) (p : Poller)
    → IsPlain ev
    → KeepsPlain p
    → KeepsPlain (expect_read tk ev p)
unfolding expect_read
reads_plain tk ev p plain h = record {
  reads = insert-ArePlain tk ev p.events_reg_read plain h.reads;
  writes = h.writes;
  timers = h.timers;
}

writes_plain :
    (tk : ℕ) (ev : Event) (p : Poller)
    → IsPlain ev
    → KeepsPlain p
    → KeepsPlain (expect_write tk ev p)
unfolding expect_write
writes_plain tk ev p plain h = record {
  reads = h.reads;
  writes = insert-ArePlain tk ev p.events_reg_write plain h.writes;
  timers = h.timers;
}

pub both_plain :
    (tk : ℕ) (read write : Event) (p : Poller)
    → IsPlain read
    → IsPlain write
    → KeepsPlain p
    → KeepsPlain (reregister_rw tk read write p)
unfolding reregister_rw
both_plain tk read write p plain plain' h = record {
  reads = insert-ArePlain tk read p.events_reg_read plain h.reads;
  writes = insert-ArePlain tk write p.events_reg_write plain' h.writes;
  timers = h.timers;
}

timer_plain :
    (tk time : ℕ) (ev : Event) (p : Poller)
    → IsPlain ev
    → KeepsPlain p
    → KeepsPlain (timer_event tk time ev p)
unfolding timer_event
timer_plain tk time ev p plain h = record {
  reads = h.reads;
  writes = h.writes;
  timers =
      push-TimersPlain (record { token = tk; timeout = time; event = ev }) p.timerq plain h.timers;
}

module _ {Method Url : Type 0} where
  abbrev pub Polls : Worker Method Url → Type 0
  Polls w = KeepsPlain w.poll

  timed-Polls :
      (o : Option ℕ) (g : ℕ → Worker Method Url)
      → ((n : ℕ) → Polls (g n))
      → OnSome Polls (o >>= λ n. some (g n))
  timed-Polls none g h = tt
  timed-Polls (some n) g h = h n

  bind-Polls :
      (o : Option (Worker Method Url)) (g : Worker Method Url → Option (Worker Method Url))
      → OnSome Polls o
      → ((w : Worker Method Url) → Polls w → OnSome Polls (g w))
      → OnSome Polls (o >>= g)
  bind-Polls none g h step = tt
  bind-Polls (some w) g h step = step w h

module _ {Method Url : Type 0} (f : Format Response) where
  answer-Polls :
      (w : Worker Method Url) (resp : WorkerMsgBuffer → Option WorkerMsgBuffer)
      → Polls w
      → OnSome Polls (answer f w resp)
  answer-Polls w resp h = elim (Option-cases (resp w.msg_buf)) [
    | inl e ↦ rw e tt
    | inr (b, e) ↦ rw e h
  ]

  unless_err-Polls :
      (r : Result Bytes (Unit {0})) (tk : ℕ) (w : Worker Method Url)
      (rest : Option (Worker Method Url))
      → Polls w
      → OnSome Polls rest
      → OnSome Polls (unless_err f r tk w rest)
  unless_err-Polls (ok _) tk w rest h h' = h'
  unless_err-Polls (err e) tk w rest h h' = answer-Polls w (λ b. resp_stream_reg_error f b tk e) h

  handle_action-Polls :
      (cfg : Config) (now : ℕ) (r : Result Bytes (Unit {0})) (act : Action Method Url)
      (w : Worker Method Url)
      → Polls w
      → OnSome Polls (handle_action f cfg now r act w)
  unfolding handle_action
  handle_action-Polls cfg now r (new_server_request tk stream) w h =
      let p = reads_plain tk server_stream_read w.poll tt h in
      unless_err-Polls r tk _ _ p (
        timed-Polls (add_time now cfg.request_read_timeout) _
          (λ n. timer_plain tk n request_read_timeout _ tt p))
  handle_action-Polls cfg now r (server_continue_read tk reader stream) w h =
      let p = reads_plain tk server_stream_read w.poll tt h in unless_err-Polls r tk _ _ p p
  handle_action-Polls cfg now r (server_read_done tk req stream) w h = unless_err-Polls r tk _ _ h h
  handle_action-Polls cfg now r (server_stream_eof tk stream) w h =
      unless_err-Polls r tk _ _ h (answer-Polls w (λ b. resp_stream_done_ok f b tk stream false) h)
  handle_action-Polls cfg now r (server_new_response tk resp) w h =
      elim (Option-cases (lookup tk w.server_pending_streams)) [
        | inl e ↦ rw (e, handle_action) tt
        | inr (stream, e) ↦
            let p = writes_plain tk server_stream_write w.poll tt h in
            rw (e, handle_action) (unless_err-Polls r tk _ _ p p)
      ]
  handle_action-Polls cfg now r (server_continue_write tk writer stream) w h =
      let p = writes_plain tk server_stream_write w.poll tt h in unless_err-Polls r tk _ _ p p
  handle_action-Polls cfg now r (server_done_write tk resp stream) w h =
      unless_err-Polls r tk _ _ h
        (answer-Polls w (λ b. resp_stream_done_ok f b tk stream resp.keep_alive) h)
  handle_action-Polls cfg now r (server_casket_response_new tk stream resp) w h =
      let p = writes_plain tk casket_response_write w.poll tt h in unless_err-Polls r tk _ _ p p
  handle_action-Polls cfg now r (server_casket_response_continue tk stream resp) w h =
      let p = writes_plain tk casket_response_write w.poll tt h in unless_err-Polls r tk _ _ p p
  handle_action-Polls cfg now r (server_casket_response_done tk stream resp) w h =
      unless_err-Polls r tk _ _ h (answer-Polls w (λ b. resp_stream_done_ok f b tk stream false) h)
  handle_action-Polls cfg now r (server_python_code_timeout_new tk st) w h =
      timed-Polls (add_time st cfg.python_code_timeout) _
        (λ n. timer_plain tk n python_code_timeout w.poll tt h)

  answer_error-Polls :
      (e : HttpError) (tk : ℕ) (w : Worker Method Url)
      → Polls w
      → OnSome Polls (answer_error f e tk w)
  unfolding answer_error
  answer_error-Polls (io why text) tk w h = answer-Polls w (λ b. resp_io_error f b tk text) h
  answer_error-Polls (header_parse x) tk w h = answer-Polls w (λ b. resp_bad_client f b tk) h
  answer_error-Polls (bad_value x) tk w h = answer-Polls w (λ b. resp_bad_client f b tk) h

  handle_result-Polls :
      (cfg : Config) (now : ℕ) (r : Result Bytes (Unit {0})) (a : ActionResult Method Url)
      (w : Worker Method Url)
      → Polls w
      → OnSome Polls (handle_result f cfg now r a w)
  unfolding handle_result handle_error
  handle_result-Polls cfg now r (ok act) w h = handle_action-Polls cfg now r act w h
  handle_result-Polls cfg now r (err e) w h =
      unless_err-Polls r e.token w _ h (answer_error-Polls e.error e.token w h)

  pub handle_results-Polls :
      (cfg : Config) (now : ℕ) (answers : ℕ → Result Bytes (Unit {0})) (n : ℕ)
      (results : List (ActionResult Method Url)) (w : Worker Method Url)
      → Polls w
      → OnSome Polls (handle_results f cfg now answers n results w)
  unfolding handle_results
  handle_results-Polls cfg now answers n [] w h = h
  handle_results-Polls cfg now answers n (a ∷ rest) w h =
      bind-Polls (handle_result f cfg now (answers n) a w) _
        (handle_result-Polls cfg now (answers n) a w h)
        (λ w' h'. handle_results-Polls cfg now answers (suc n) rest w' h')
