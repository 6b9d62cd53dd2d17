-- ===== src/Worker/Loop.antt =====
-- src/worker/mod.rs: the loop of `run_worker`, as rounds over what the operating system and the
-- Python threads answer. A result of `none` is a panic.
mod State
mod Steps
pub mod Leaves
pub mod Results
pub mod Late
pub mod Flow
pub mod Moved
pub mod Conserved
pub mod Brings
pub mod Placed
pub mod EventSteps
pub mod Rounds
pub mod Polls
pub mod Incoming
pub mod PollsRound
pub mod Turns
unfoldable pub use State.*
unfoldable pub use Steps.*
use casket.Base.{
  ℕ, zero, suc, length, ◌+◌, ◌*◌, ◌^◌, Bool, true, false, not, ◌&&◌, Option, none, some, List, [],
  ◌∷◌, ◌++◌, Bytes, codes, Result, ok, err, leb, ltb, ◌==◌, if◌then◌else◌, is_empty,
}
use casket.Base.Map.{Map, lookup, remove}
use casket.Config.{Config}
use casket.Errors.{RuntimeError, fatal_io_error}
use casket.Http.{HttpRequest, HttpResponse}
use casket.Msgs.Wire.{Request, Response, Format}
use casket.Msgs.WorkerBuffer.{
  WorkerMsgBuffer, next_stream_fd, has_data_to_send, read_unix_stream, write_unix_stream,
}
use casket.Worker.Actions.{
  ActionResult, new_server_request, new_408_timeout, new_503_service_busy, new_504_gateway_timeout,
}
use casket.Worker.Events.{
  Event, ctrl_c, unix_stream_read, unix_stream_write, new_stream_fd, server_stream_read,
  queued_requests, poll_python_responses, server_stream_write, request_read_timeout,
  casket_response_write, python_code_timeout, Timeout, request_read, python_code,
}
use casket.Worker.Poller.{Poll, tick, register_read, reregister_read, reregister_rw}
use casket.Msgs.WorkerBuffer
use casket.Worker.Poller
use casket.Worker.PythonThreads
use casket.Workq.{Sender}
use casket.Worker.PythonThreads.{
  Inbox, has_queued_reqs, send_queued_requests, take_responses, timeout_request,
}
use casket.Worker.Reader.{Library, Random}
use casket.Worker.{
  Worker, ◌>>=◌, handle_action, handle_error, event_server_stream_read, event_server_stream_write,
  event_casket_response_write,
}

module _ {Method Url : Type 0} (lib : Library Method Url) (requests : Format Request)
    (responses : Format Response) where
  unfoldable pub handle_events :
      Config → Turn Method Url → List (ℕ × Event) → Round Method Url → Option (Outcome Method Url)
  unfolding handle_event
  handle_events cfg t [] r = some (next r)
  handle_events cfg t ((tk, ev) ∷ evs) r =
      and_then (handle_event lib requests cfg (t.io tk ev) tk ev r) (handle_events cfg t evs)

  unfoldable pub drain_results :
      Config → ℕ → (ℕ → Result Bytes (Unit {0})) → Round Method Url → Option (Outcome Method Url)
  unfolding handle_results
  drain_results cfg now answers r =
      handle_results responses cfg now answers 0 r.results r.worker >>= λ w.
      some (next (record r { worker = w; results = [] }))

  unfoldable pub handle_timeouts :
      Turn Method Url → List (ℕ × Timeout) → Round Method Url → Option (Outcome Method Url)
  unfolding handle_timeout
  handle_timeouts t [] r = some (next r)
  handle_timeouts t ((tk, ev) ∷ evs) r =
      and_then (some (handle_timeout t tk ev r)) (handle_timeouts t evs)

  -- The `while let` over the streams that the server has sent: each takes one off the queue.
  unfoldable pub take_streams : ℕ → WorkerMsgBuffer → WorkerMsgBuffer × List (ℕ × Event)
  take_streams zero b = (b, [])
  take_streams (suc fuel) b =
      let (b', taken) = next_stream_fd b in
      let (b'', evs) = take_streams fuel b' in
      elim taken [ none ↦ (b', []) | some (tk, fd) ↦ (b'', (tk, new_stream_fd fd) ∷ evs) ]

  abbrev pub is_idle : Worker Method Url → Bool
  is_idle w =
      not (has_data_to_send w.msg_buf)
      && (w.python_threads.num_pending_reqs == 0
          && (not (has_queued_reqs w.python_threads) && is_empty w.server_writing_streams))

  abbrev pub when : Bool → Event → List (ℕ × Event)
  when b ev = if b then (no_token, ev) ∷ [] else []

  -- The events with which `tick` is called.
  unfoldable pub pending_events : Worker Method Url → WorkerMsgBuffer × List (ℕ × Event)
  unfolding take_streams
  pending_events w =
      let (b, streams) = take_streams (suc (length w.msg_buf.stream_fds)) w.msg_buf in
      (
        b,
        streams
            ++ (when (ltb 0 w.python_threads.num_pending_reqs) poll_python_responses
                ++ when (has_queued_reqs w.python_threads) queued_requests),
      )

  -- The socket to the server is polled for writing while there is something to send.
  unfoldable pub reregister_unix : Turn Method Url → Round Method Url → Option (Outcome Method Url)
  reregister_unix t r =
      let poll =
        if has_data_to_send r.worker.msg_buf
        then reregister_rw unix_stream_token unix_stream_read unix_stream_write r.worker.poll
        else reregister_read unix_stream_token unix_stream_read r.worker.poll in
      some (
        or_fail (fatal_io (codes "worker failed to reregister unix stream") t.unix_registry)
          (set_worker (record (r.worker) { poll = poll }) r))

  -- What follows the poll.
  unfoldable pub handle_all :
      Config → Turn Method Url → List (ℕ × Event) → Round Method Url → Option (Outcome Method Url)
  unfolding handle_events drain_results handle_timeouts reregister_unix
  handle_all cfg t events r =
      and_then
        (and_then
          (and_then (and_then (handle_events cfg t events r) (drain_results cfg t.now t.registry))
            (λ r. handle_timeouts t r.timeouts (record r { timeouts = [] })))
          (drain_results cfg t.now t.timeout_registry))
        (reregister_unix t)

  -- One round of the loop.
  unfoldable pub run_turn :
      Config → Turn Method Url → Round Method Url → Option (Outcome Method Url)
  unfolding pending_events handle_all
  run_turn cfg t r =
      if r.closing && is_idle r.worker
      then some stopped
      else (let (b, events) = pending_events r.worker in
          tick t.now t.poll r.worker.poll events >>= λ ticked.
          and_then
            (some (
              or_fail ticked.2 (set_worker (record (r.worker) { msg_buf = b; poll = ticked.0 }) r)))
            (handle_all cfg t ticked.1))

  unfoldable pub run_turns :
      Config → List (Turn Method Url) → Round Method Url → Option (Outcome Method Url)
  unfolding run_turn
  run_turns cfg [] r = some (next r)
  run_turns cfg (t ∷ ts) r = and_then (run_turn cfg t r) (run_turns cfg ts)

  -- What precedes the loop: the poller and the socket to the server.
  unfoldable pub start :
      Sender (ℕ × HttpRequest Method Url)
      → Result Bytes (Unit {0})
      → Result Bytes (Unit {0})
      → Option (Outcome Method Url)
  unfolding WorkerBuffer.new Poller.new PythonThreads.new
  start application created registered =
      let worker : Worker Method Url = record {
        msg_buf = WorkerBuffer.new;
        poll = register_read unix_stream_token unix_stream_read Poller.new;
        python_threads = PythonThreads.new application;
        server_reading_streams = [];
        server_pending_streams = [];
        server_writing_streams = [];
        server_casket_responses = [];
      } in
      let r : Round Method Url = record {
        worker = worker;
        results = [];
        timeouts = [];
        closing = false;
      } in
      and_then (some (or_fail (fatal_io (codes "worker couldn't create poll instance") created) r))
        (λ r. some (
          or_fail (fatal_io (codes "worker couldn't register unix stream for reading") registered)
            r))

  -- The worker, over the rounds `ts`.
  unfoldable pub run_worker :
      Config
      → Sender (ℕ × HttpRequest Method Url)
      → Result Bytes (Unit {0})
      → Result Bytes (Unit {0})
      → List (Turn Method Url)
      → Option (Outcome Method Url)
  unfolding start run_turns
  run_worker cfg application created registered ts =
      and_then (start application created registered) (run_turns cfg ts)
