-- ===== src/Worker.antt =====
-- src/worker/mod.rs: a worker. It reads the requests that the server hands over, gives them to its
-- Python threads, and writes the responses.
-- A stream stands as its descriptor; logging is left out. A result of `none` is a panic. Each action
-- makes at most one call of mio's registry, whose answer is an argument.
pub mod Events
pub mod Poller
pub mod Reader
pub mod Writer
pub mod Actions
pub mod PythonThreads
pub mod Loop
pub mod Handed
pub mod Tests
pub mod RoundTests
use casket.Base.{
  ℕ, ◌+◌, ◌*◌, ◌^◌, ltb, Bool, true, false, Option, none, some, List, [], ◌∷◌, ◌++◌, Bytes, codes,
  Result, ok, err, length, drop, add_usize, ◌==◌, if◌then◌else◌,
}
use casket.Base.Map.{Map, lookup, insert, remove}
use casket.Config.{Config}
use casket.Http.{HttpError, io, header_parse, bad_value, HttpRequest, HttpResponse}
use casket.Msgs.WorkerBuffer.{
  WorkerMsgBuffer, resp_io_error, resp_bad_client, resp_stream_reg_error, resp_stream_done_ok,
}
use casket.Msgs.Wire.{Response, Format}
use casket.Msgs.WorkerBuffer
use casket.Workq.{Sender}
use Actions.{
  Action, ActionResult, Error, CasketResponse, new_server_request, server_continue_read,
  server_read_done, server_stream_eof, server_new_response, server_continue_write,
  server_done_write, server_casket_response_new, server_casket_response_continue,
  server_casket_response_done, server_python_code_timeout_new,
}
use Events.{
  server_stream_read, server_stream_write, casket_response_write, request_read_timeout,
  python_code_timeout,
}
use Poller
use Poller.{register_read, reregister_read, register_write, reregister_write, timer_event}
use PythonThreads
use PythonThreads.{queue_http_req}
use Reader
use Reader.{Library, Random, partial, completed, stream_eof, read_tcp_stream}
use Writer
use Writer.{write_tcp_stream}

pub record Worker (Method Url : Type 0) : Type 0 where
  pub msg_buf : WorkerMsgBuffer
  pub poll : Poller.Poller
  pub python_threads : PythonThreads.PythonThreads Method Url
  pub server_reading_streams : Map (ℕ × Reader.Reader Method Url)
  pub server_pending_streams : Map ℕ
  pub server_writing_streams : Map (ℕ × Writer.Writer Method Url)
  pub server_casket_responses : Map (ℕ × CasketResponse)

infixl 5 ◌>>=◌
abbrev pub ◌>>=◌ : {A B : Type 0} → Option A → (A → Option B) → Option B
none >>= f = none
some a >>= f = f a

-- The first time that a `SystemTime` does not hold: its seconds are an i64.
abbrev pub end_of_time : ℕ
end_of_time = 2 ^ 63 * 10 ^ 9

-- `SystemTime + Duration`, which panics beyond the end.
unfoldable pub add_time : ℕ → ℕ → Option ℕ
add_time time wait = if ltb (time + wait) end_of_time then some (time + wait) else none

module _ {Method Url : Type 0} (f : Format Response) where
  -- A response to the server, by one of the `resp_*` methods.
  abbrev pub answer :
      Worker Method Url → (WorkerMsgBuffer → Option WorkerMsgBuffer) → Option (Worker Method Url)
  answer w resp = resp w.msg_buf >>= λ b. some (record w { msg_buf = b })

  -- `if let Err(e) = … { resp_stream_reg_error; return }`, and what follows it.
  abbrev pub unless_err :
      Result Bytes (Unit {0})
      → ℕ
      → Worker Method Url
      → Option (Worker Method Url)
      → Option (Worker Method Url)
  unless_err (err e) tk w rest = answer w (λ b. resp_stream_reg_error f b tk e)
  unless_err (ok _) tk w rest = rest

  abbrev pub set_poll : Worker Method Url → (Poller.Poller → Poller.Poller) → Worker Method Url
  set_poll w change = record w { poll = change w.poll }

  -- `handle_action`, where the clock shows `now` and mio answers `r`.
  unfoldable pub handle_action :
      Config
      → ℕ
      → Result Bytes (Unit {0})
      → Action Method Url
      → Worker Method Url
      → Option (Worker Method Url)
  unfolding add_time
  handle_action cfg now r (new_server_request tk stream) w =
      let w' = set_poll w (register_read tk server_stream_read) in
      unless_err r tk w' (
        add_time now cfg.request_read_timeout >>= λ timeout.
        some (record (set_poll w' (timer_event tk timeout request_read_timeout)) {
          server_reading_streams = insert tk (stream, Reader.new) w.server_reading_streams;
        }))
  handle_action cfg now r (server_continue_read tk reader stream) w =
      let w' = set_poll w (reregister_read tk server_stream_read) in
      unless_err r tk w' (
        some (record w' {
          server_reading_streams = insert tk (stream, reader) w.server_reading_streams;
        }))
  handle_action cfg now r (server_read_done tk req stream) w = unless_err r tk w (
      some (record w {
        python_threads = queue_http_req tk req w.python_threads;
        server_pending_streams = insert tk stream w.server_pending_streams;
      }))
  handle_action cfg now r (server_stream_eof tk stream) w =
      unless_err r tk w (answer w (λ b. resp_stream_done_ok f b tk stream false))
  handle_action cfg now r (server_new_response tk resp) w =
      lookup tk w.server_pending_streams >>= λ stream.
      let w' = record (set_poll w (register_write tk server_stream_write)) {
        server_pending_streams = remove tk w.server_pending_streams;
      } in
      unless_err r tk w' (
        some (record w' {
          server_writing_streams = insert tk (stream, Writer.new resp) w.server_writing_streams;
        }))
  handle_action cfg now r (server_continue_write tk writer stream) w =
      let w' = set_poll w (reregister_write tk server_stream_write) in
      unless_err r tk w' (
        some (record w' {
          server_writing_streams = insert tk (stream, writer) w.server_writing_streams;
        }))
  handle_action cfg now r (server_done_write tk resp stream) w =
      unless_err r tk w (answer w (λ b. resp_stream_done_ok f b tk stream resp.keep_alive))
  handle_action cfg now r (server_casket_response_new tk stream resp) w =
      let w' = set_poll w (register_write tk casket_response_write) in
      unless_err r tk w' (
        some (record w' {
          server_casket_responses = insert tk (stream, resp) w.server_casket_responses;
        }))
  handle_action cfg now r (server_casket_response_continue tk stream resp) w =
      let w' = set_poll w (reregister_write tk casket_response_write) in
      unless_err r tk w' (
        some (record w' {
          server_casket_responses = insert tk (stream, resp) w.server_casket_responses;
        }))
  handle_action cfg now r (server_casket_response_done tk stream resp) w =
      unless_err r tk w (answer w (λ b. resp_stream_done_ok f b tk stream false))
  handle_action cfg now r (server_python_code_timeout_new tk st) w =
      add_time st cfg.python_code_timeout >>= λ timeout.
      some (set_poll w (timer_event tk timeout python_code_timeout))

  -- The `match` at the end of `handle_error`.
  unfoldable pub answer_error : HttpError → ℕ → Worker Method Url → Option (Worker Method Url)
  answer_error (io why text) tk w = answer w (λ b. resp_io_error f b tk text)
  answer_error (header_parse _) tk w = answer w (λ b. resp_bad_client f b tk)
  answer_error (bad_value _) tk w = answer w (λ b. resp_bad_client f b tk)

  -- `handle_error`.
  unfoldable pub handle_error :
      Result Bytes (Unit {0}) → Error → Worker Method Url → Option (Worker Method Url)
  unfolding answer_error
  handle_error r e w = unless_err r e.token w (answer_error e.error e.token w)

module _ {Method Url : Type 0} where
  -- A stream that is read from; `answer` is what its `read` gives.
  unfoldable pub event_server_stream_read :
      Library Method Url
      → Random
      → ℕ
      → ℕ
      → Reader.Reader Method Url
      → Result Bytes Bytes
      → Option (ActionResult Method Url)
  event_server_stream_read lib random tk stream reader answer =
      elim (read_tcp_stream lib random reader answer) [
        | none ↦ none
        | some (err e) ↦ some (err (record { error = e; token = tk; tcp_stream = stream }))
        | some (ok (partial reader')) ↦ some (ok (server_continue_read tk reader' stream))
        | some (ok (completed req)) ↦ some (ok (server_read_done tk req stream))
        | some (ok stream_eof) ↦ some (ok (server_stream_eof tk stream))
      ]

  unfoldable pub event_server_stream_write :
      ℕ → ℕ → Writer.Writer Method Url → Result Bytes ℕ → ActionResult Method Url
  event_server_stream_write tk stream writer answer = elim (write_tcp_stream writer answer) [
    | err e ↦ err (record { error = e; token = tk; tcp_stream = stream })
    | ok (Writer.partial writer') ↦ ok (server_continue_write tk writer' stream)
    | ok (Writer.done resp) ↦ ok (server_done_write tk resp stream)
  ]

  -- The socket takes a front part of what is left.
  unfoldable pub event_casket_response_write :
      ℕ → ℕ → CasketResponse → Result Bytes ℕ → ActionResult Method Url
  event_casket_response_write tk stream resp (err e) = err (record {
    error = io (codes "failed to write casket response to tcp stream") e;
    token = tk;
    tcp_stream = stream;
  })
  event_casket_response_write tk stream resp (ok n) =
      let sent = resp.bytes_sent + n in
      let resp' : CasketResponse = record resp { bytes_sent = sent } in
      if sent == length resp.response
      then ok (server_casket_response_done tk stream resp')
      else ok (server_casket_response_continue tk stream resp')
