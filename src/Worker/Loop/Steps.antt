-- ===== src/Worker/Loop/Steps.antt =====
-- One event, one result and one timer of `run_worker`.
use casket.Base.{
  ℕ, suc, true, Option, none, some, List, [], ◌∷◌, ◌++◌, Bytes, codes, Result, ok, err, leb,
  if◌then◌else◌,
}
use casket.Base.Map.{lookup, remove}
use casket.Config.{Config}
use casket.Msgs.Wire.{Request, Response, Format}
use casket.Msgs.WorkerBuffer.{read_unix_stream, write_unix_stream}
use casket.Worker.Actions.{
  ActionResult, new_server_request, new_408_timeout, new_503_service_busy, new_504_gateway_timeout,
}
use casket.Worker.Events.{
  Event, ctrl_c, unix_stream_read, unix_stream_write, new_stream_fd, server_stream_read,
  queued_requests, poll_python_responses, server_stream_write, request_read_timeout,
  casket_response_write, python_code_timeout, Timeout, request_read, python_code,
}
use casket.Worker.PythonThreads.{send_queued_requests, take_responses, timeout_request}
use casket.Worker.Reader.{Library}
use casket.Worker.{
  Worker, ◌>>=◌, handle_action, handle_error, event_server_stream_read, event_server_stream_write,
  event_casket_response_write,
}
use casket.Worker.Loop.State.{
  Io, Round, Turn, Outcome, next, or_fail, fatal_io, push_result, set_worker,
}

module _ {Method Url : Type 0} where
  -- One timer that has run out.
  unfoldable pub handle_timeout :
      Turn Method Url → ℕ → Timeout → Round Method Url → Outcome Method Url
  handle_timeout t tk request_read r = elim (lookup tk r.worker.server_reading_streams) [
    | none ↦ next r
    | some (stream, _) ↦
        or_fail (fatal_io (codes "worker couldn't deregister stream poll") (t.deregister tk)) (
          push_result (ok (new_408_timeout tk stream)) (
            set_worker
              (record (r.worker) {
                server_reading_streams = remove tk r.worker.server_reading_streams;
              })
              r))
  ]
  handle_timeout t tk python_code r = elim (lookup tk r.worker.server_pending_streams) [
    | none ↦ next r
    | some stream ↦ next (
        push_result (ok (new_504_gateway_timeout tk stream)) (
          set_worker
            (record (r.worker) {
              server_pending_streams = remove tk r.worker.server_pending_streams;
              python_threads = timeout_request tk r.worker.python_threads;
            })
            r))
  ]

module _ {Method Url : Type 0} (responses : Format Response) where
  -- One result, with mio's answer.
  unfoldable pub handle_result :
      Config
      → ℕ
      → Result Bytes (Unit {0})
      → ActionResult Method Url
      → Worker Method Url
      → Option (Worker Method Url)
  handle_result cfg now answer (ok act) w = handle_action responses cfg now answer act w
  handle_result cfg now answer (err e) w = handle_error responses answer e w

  -- The `for` over the results, from the one of number `n` on.
  unfoldable pub handle_results :
      Config
      → ℕ
      → (ℕ → Result Bytes (Unit {0}))
      → ℕ
      → List (ActionResult Method Url)
      → Worker Method Url
      → Option (Worker Method Url)
  unfolding handle_result
  handle_results cfg now answers n [] w = some w
  handle_results cfg now answers n (a ∷ rest) w =
      handle_result cfg now (answers n) a w >>= handle_results cfg now answers (suc n) rest

module _ {Method Url : Type 0} (lib : Library Method Url) (requests : Format Request) where
  -- The body of the `for` over the events.
  unfoldable pub handle_event :
      Config → Io Method Url → ℕ → Event → Round Method Url → Option (Outcome Method Url)
  handle_event cfg io tk ctrl_c r = some (next (record r { closing = true }))
  handle_event cfg io tk unix_stream_read r =
      read_unix_stream requests r.worker.msg_buf io.unix_read io.unix_fds >>= λ read. some (
        or_fail (fatal_io (codes "worker couldn't read unix stream") read.1)
          (set_worker (record (r.worker) { msg_buf = read.0 }) r))
  handle_event cfg io tk unix_stream_write r =
      let (b, bytes, result) = write_unix_stream r.worker.msg_buf io.unix_write in
      some (
        or_fail (fatal_io (codes "worker couldn't read unix stream") result)
          (set_worker (record (r.worker) { msg_buf = b }) r))
  handle_event cfg io tk (new_stream_fd fd) r =
      if leb cfg.max_requests r.worker.python_threads.num_pending_reqs
      then some (next (push_result (ok (new_503_service_busy tk fd)) r))
      else some (next (push_result (ok (new_server_request tk fd)) r))
  handle_event cfg io tk server_stream_read r = lookup tk r.worker.server_reading_streams >>= λ s.
      event_server_stream_read lib io.random tk s.0 s.1 io.tcp_read >>= λ a. some (
        next (
          push_result a (
            set_worker
              (record (r.worker) {
                server_reading_streams = remove tk r.worker.server_reading_streams;
              })
              r)))
  handle_event cfg io tk queued_requests r =
      send_queued_requests r.worker.python_threads >>= λ sent.
      some (or_fail sent.1 (set_worker (record (r.worker) { python_threads = sent.0 }) r))
  handle_event cfg io tk poll_python_responses r =
      let (p, taken, result) = take_responses io.starts io.responses r.worker.python_threads in
      some (
        or_fail result (record r {
          worker = record (r.worker) { python_threads = p };
          results = r.results ++ taken;
        }))
  handle_event cfg io tk server_stream_write r = lookup tk r.worker.server_writing_streams >>= λ s.
      some (
        next (
          push_result (event_server_stream_write tk s.0 s.1 io.tcp_write) (
            set_worker
              (record (r.worker) {
                server_writing_streams = remove tk r.worker.server_writing_streams;
              })
              r)))
  handle_event cfg io tk request_read_timeout r =
      some (next (record r { timeouts = r.timeouts ++ (tk, request_read) ∷ [] }))
  handle_event cfg io tk casket_response_write r =
      lookup tk r.worker.server_casket_responses >>= λ s. some (
        next (
          push_result (event_casket_response_write tk s.0 s.1 io.tcp_write) (
            set_worker
              (record (r.worker) {
                server_casket_responses = remove tk r.worker.server_casket_responses;
              })
              r)))
  handle_event cfg io tk python_code_timeout r =
      some (next (record r { timeouts = r.timeouts ++ (tk, python_code) ∷ [] }))
