-- ===== src/Worker/Handed.antt =====
-- What becomes of a stream that the server has handed over.
use casket.Base.{
  ℕ, ◌+◌, ◌<◌, ◌≡◌, refl, ap, Option-cases, ◌∙◌, ◌⊎◌, inl, inr, Bool, true, false, Option, none,
  some, ◌++◌, Bytes, codes, Result, ok, err, arith,
}
use casket.Base.Map.{Map, lookup, insert, remove, contains, lookup-insert}
use casket.Config.{Config}
use casket.Http.{HttpError, io, header_parse, bad_value}
use casket.Msgs.Wire.{Response, Format, response_frame}
use casket.Msgs.WorkerBuffer.{WorkerMsgBuffer}
use casket.Worker.Actions.{
  Action, Error, new_server_request, server_continue_read, server_read_done, server_stream_eof,
  server_new_response, server_continue_write, server_done_write, server_casket_response_new,
  server_casket_response_continue, server_casket_response_done, server_python_code_timeout_new,
}
use casket.Msgs.WorkerBuffer.Respond.{
  Reply, io_error, bad_client, stream_reg_error, done_ok, reply, response, reply_known,
}
use casket.Worker.Poller.{expect_read, expect_write, timer_event}
use casket.Worker.Reader
use casket.Worker.Writer
use casket.Worker.{
  Worker, answer, unless_err, handle_action, answer_error, handle_error, ◌>>=◌, add_time,
  end_of_time,
}

abbrev pub is_some : {V : Type 0} → Option V → Bool
is_some none = false
is_some (some _) = true

contains-insert : {V : Type 0} (k : ℕ) (v : V) (m : Map V) → contains k (insert k v m) ≡ true
contains-insert k v m = ap is_some (lookup-insert k k v m) ∙ (ground arith)

pub add_time-some :
    (time wait : ℕ) → time + wait < end_of_time → add_time time wait ≡ some (time + wait)
unfolding add_time
add_time-some time wait h = ground arith

-- The text that goes with an error, if mio lets the stream go, and if it does not.
abbrev pub error_text : Result Bytes (Unit {0}) → HttpError → Bytes
error_text (err x) e = codes "couldn't register stream with mio-" ++ x
error_text (ok _) (io why text) = codes "i/o error with stream-" ++ text
error_text (ok _) (header_parse x) = codes "badly formed client request"
error_text (ok _) (bad_value x) = codes "badly formed client request"

-- The server is told, once, about its descriptor `fd` for the token, which is then closed here.
abbrev pub IsAnswered : Format Response → ℕ → ℕ → WorkerMsgBuffer → WorkerMsgBuffer → Type 0
IsAnswered f tk fd b b' =
    (r : Response) × (r.token ≡ tk)
    × (r.fd ≡ fd)
    × (b' ≡ record b {
      server_fds = remove tk b.server_fds;
      write_buffer = b.write_buffer ++ response_frame f r;
    })

response-token : (tk fd : ℕ) (r : Reply) → (response tk fd r).token ≡ tk
response-token tk fd (io_error x) = refl
response-token tk fd bad_client = refl
response-token tk fd (stream_reg_error x) = refl
response-token tk fd (done_ok _ keep_alive) = refl

response-fd : (tk fd : ℕ) (r : Reply) → (response tk fd r).fd ≡ fd
response-fd tk fd (io_error x) = refl
response-fd tk fd bad_client = refl
response-fd tk fd (stream_reg_error x) = refl
response-fd tk fd (done_ok _ keep_alive) = refl

module _ {Method Url : Type 0} (f : Format Response) where
  -- The token of an action.
  abbrev pub token_of : Action Method Url → ℕ
  token_of (new_server_request tk stream) = tk
  token_of (server_continue_read tk reader stream) = tk
  token_of (server_read_done tk req stream) = tk
  token_of (server_stream_eof tk stream) = tk
  token_of (server_new_response tk resp) = tk
  token_of (server_continue_write tk writer stream) = tk
  token_of (server_done_write tk resp stream) = tk
  token_of (server_casket_response_new tk stream resp) = tk
  token_of (server_casket_response_continue tk stream resp) = tk
  token_of (server_casket_response_done tk stream resp) = tk
  token_of (server_python_code_timeout_new tk st) = tk

  -- The stream waits where the action puts it.
  abbrev pub waits : Action Method Url → Worker Method Url → Bool
  waits (new_server_request tk stream) w = contains tk w.server_reading_streams
  waits (server_continue_read tk reader stream) w = contains tk w.server_reading_streams
  waits (server_read_done tk req stream) w = contains tk w.server_pending_streams
  waits (server_new_response tk resp) w = contains tk w.server_writing_streams
  waits (server_continue_write tk writer stream) w = contains tk w.server_writing_streams
  waits (server_casket_response_new tk stream resp) w = contains tk w.server_casket_responses
  waits (server_casket_response_continue tk stream resp) w = contains tk w.server_casket_responses
  waits (server_python_code_timeout_new tk st) w = true
  waits _ w = false

  -- The stream of a response is pending; no other action needs a stream in the maps.
  abbrev pub needs : Action Method Url → Worker Method Url → Bool
  needs (server_new_response tk resp) w = contains tk w.server_pending_streams
  needs _ w = true

  -- The clock shows no time so late that its timers are beyond the end of time.
  abbrev pub InTime : Config → ℕ → Action Method Url → Type 0
  InTime cfg now (new_server_request tk stream) = now + cfg.request_read_timeout < end_of_time
  InTime cfg now (server_python_code_timeout_new tk st) = st + cfg.python_code_timeout < end_of_time
  InTime cfg now act = Unit

  abbrev pub Hands :
      (Worker Method Url → Bool) → ℕ → ℕ → WorkerMsgBuffer → Option (Worker Method Url) → Type 0
  Hands place tk fd b o =
      (w' : Worker Method Url) × (o ≡ some w')
      × ((w'.msg_buf ≡ b) × (place w' ≡ true) ⊎ IsAnswered f tk fd b w'.msg_buf)

  module _ (place : Worker Method Url → Bool) (tk fd : ℕ) (b : WorkerMsgBuffer)
      (open_stream : lookup tk b.server_fds ≡ some fd) where
    reply-Hands :
        (w : Worker Method Url) (r : Reply)
        → w.msg_buf ≡ b
        → Hands place tk fd b (answer f w (λ b. reply f b tk r))
    reply-Hands w r e =
        let b' : WorkerMsgBuffer = record b {
          server_fds = remove tk b.server_fds;
          write_buffer = b.write_buffer ++ response_frame f (response tk fd r);
        } in
        let known : reply f w.msg_buf tk r ≡ some b' =
          ap (λ b. reply f b tk r) e ∙ reply_known f b tk fd r open_stream in
        (
          record w { msg_buf = b' },
          ap (λ o. o >>= λ b. some (record w { msg_buf = b })) known,
          inr (response tk fd r, response-token tk fd r, response-fd tk fd r, refl),
        )

    unless_err-Hands :
        (r : Result Bytes (Unit {0})) (w : Worker Method Url) (rest : Option (Worker Method Url))
        → w.msg_buf ≡ b
        → Hands place tk fd b rest
        → Hands place tk fd b (unless_err f r tk w rest)
    unfolding reply
    unless_err-Hands (ok _) w rest e h = h
    unless_err-Hands (err x) w rest e h = reply-Hands w (stream_reg_error x) e

  -- A stream that the worker has taken, and whose response the server has not been given, is after
  -- every action either waiting where the action puts it, with nothing said to the server, or the
  -- server has been answered, once, with its own descriptor: no action panics, drops a stream
  -- silently or answers twice. A response of Python code needs its stream to be pending, and an action
  -- that sets a timer needs it to be before the end of time.
  pub handle_action-Hands :
      (cfg : Config) (now : ℕ) (r : Result Bytes (Unit {0})) (act : Action Method Url)
      (w : Worker Method Url) (fd : ℕ)
      → lookup (token_of act) w.msg_buf.server_fds ≡ some fd
      → needs act w ≡ true
      → InTime cfg now act
      → Hands (waits act) (token_of act) fd w.msg_buf (handle_action f cfg now r act w)
  unfolding handle_action expect_read expect_write timer_event reply
  handle_action-Hands cfg now r (new_server_request tk stream) w fd e n early =
      rw (add_time-some now cfg.request_read_timeout early, handle_action)
        (unless_err-Hands _ tk fd w.msg_buf e r _ _ refl
          (_, refl, inl (refl, contains-insert tk (stream, Reader.new) w.server_reading_streams)))
  handle_action-Hands cfg now r (server_continue_read tk reader stream) w fd e n early =
      unless_err-Hands _ tk fd w.msg_buf e r _ _ refl
        (_, refl, inl (refl, contains-insert tk (stream, reader) w.server_reading_streams))
  handle_action-Hands cfg now r (server_read_done tk req stream) w fd e n early =
      unless_err-Hands _ tk fd w.msg_buf e r _ _ refl
        (_, refl, inl (refl, contains-insert tk stream w.server_pending_streams))
  handle_action-Hands cfg now r (server_stream_eof tk stream) w fd e n early =
      unless_err-Hands _ tk fd w.msg_buf e r w _ refl
        (reply-Hands _ tk fd w.msg_buf e w (done_ok stream false) refl)
  handle_action-Hands cfg now r (server_new_response tk resp) w fd e n early =
      elim (Option-cases (lookup tk w.server_pending_streams)) [
        | inl none_e ↦ ground arith
        | inr (stream, some_e) ↦
            rw (some_e, handle_action)
              (unless_err-Hands _ tk fd w.msg_buf e r _ _ refl (
                _,
                refl,
                inl (refl, contains-insert tk (stream, Writer.new resp) w.server_writing_streams),
              ))
      ]
  handle_action-Hands cfg now r (server_continue_write tk writer stream) w fd e n early =
      unless_err-Hands _ tk fd w.msg_buf e r _ _ refl
        (_, refl, inl (refl, contains-insert tk (stream, writer) w.server_writing_streams))
  handle_action-Hands cfg now r (server_done_write tk resp stream) w fd e n early =
      unless_err-Hands _ tk fd w.msg_buf e r w _ refl
        (reply-Hands _ tk fd w.msg_buf e w (done_ok stream resp.keep_alive) refl)
  handle_action-Hands cfg now r (server_casket_response_new tk stream resp) w fd e n early =
      unless_err-Hands _ tk fd w.msg_buf e r _ _ refl
        (_, refl, inl (refl, contains-insert tk (stream, resp) w.server_casket_responses))
  handle_action-Hands cfg now r (server_casket_response_continue tk stream resp) w fd e n early =
      unless_err-Hands _ tk fd w.msg_buf e r _ _ refl
        (_, refl, inl (refl, contains-insert tk (stream, resp) w.server_casket_responses))
  handle_action-Hands cfg now r (server_casket_response_done tk stream resp) w fd e n early =
      unless_err-Hands _ tk fd w.msg_buf e r w _ refl
        (reply-Hands _ tk fd w.msg_buf e w (done_ok stream false) refl)
  handle_action-Hands cfg now r (server_python_code_timeout_new tk st) w fd e n early =
      rw (add_time-some st cfg.python_code_timeout early, handle_action) (_, refl, inl (refl, refl))

  answer_error-Hands :
      (e : HttpError) (tk fd : ℕ) (w : Worker Method Url)
      → lookup tk w.msg_buf.server_fds ≡ some fd
      → Hands (λ _. false) tk fd w.msg_buf (answer_error f e tk w)
  unfolding answer_error reply
  answer_error-Hands (io why text) tk fd w h =
      reply-Hands (λ _. false) tk fd w.msg_buf h w (io_error text) refl
  answer_error-Hands (header_parse x) tk fd w h =
      reply-Hands (λ _. false) tk fd w.msg_buf h w bad_client refl
  answer_error-Hands (bad_value x) tk fd w h =
      reply-Hands (λ _. false) tk fd w.msg_buf h w bad_client refl

  -- The server is told that the stream of `tk`, its descriptor `fd`, is at an end, and why.
  abbrev pub told : ℕ → ℕ → Bytes → Worker Method Url → Worker Method Url
  told tk fd text w = record w {
    msg_buf = record (w.msg_buf) {
      server_fds = remove tk w.msg_buf.server_fds;
      write_buffer =
          w.msg_buf.write_buffer
          ++ response_frame f
              (record { token = tk; fd = fd; keep_alive = false; error = some text });
    };
  }

  reply-told :
      (r : Reply) (tk fd : ℕ) (w : Worker Method Url)
      → lookup tk w.msg_buf.server_fds ≡ some fd
      → answer f w (λ b. reply f b tk r)
        ≡ some (record w {
          msg_buf = record (w.msg_buf) {
            server_fds = remove tk w.msg_buf.server_fds;
            write_buffer = w.msg_buf.write_buffer ++ response_frame f (response tk fd r);
          };
        })
  reply-told r tk fd w h =
      ap (λ o. o >>= λ b. some (record w { msg_buf = b })) (reply_known f w.msg_buf tk fd r h)

  refused-told :
      (r : Result Bytes (Unit {0})) (e : HttpError) (tk fd : ℕ) (w : Worker Method Url)
      → lookup tk w.msg_buf.server_fds ≡ some fd
      → unless_err f r tk w (answer_error f e tk w) ≡ some (told tk fd (error_text r e) w)
  unfolding answer_error reply
  refused-told (err x) e tk fd w h = reply-told (stream_reg_error x) tk fd w h
  refused-told (ok _) (io why text) tk fd w h = reply-told (io_error text) tk fd w h
  refused-told (ok _) (header_parse x) tk fd w h = reply-told bad_client tk fd w h
  refused-told (ok _) (bad_value x) tk fd w h = reply-told bad_client tk fd w h

  -- An error ends the stream: the server is told, in one response with its own descriptor, not to
  -- keep the connection, and is given the text of the error: of mio's, where mio does not let the
  -- stream go, of the stream's, or that the client's request is badly formed. The token is closed
  -- with that, and nothing else changes.
  pub handle_error-tells :
      (r : Result Bytes (Unit {0})) (e : Error) (w : Worker Method Url) (fd : ℕ)
      → lookup e.token w.msg_buf.server_fds ≡ some fd
      → handle_error f r e w ≡ some (told e.token fd (error_text r e.error) w)
  unfolding handle_error
  handle_error-tells r e w fd h = refused-told r e.error e.token fd w h

  pub handle_error-IsAnswered :
      (r : Result Bytes (Unit {0})) (e : Error) (w : Worker Method Url) (fd : ℕ)
      → lookup e.token w.msg_buf.server_fds ≡ some fd
      → (w' : Worker Method Url) × (handle_error f r e w ≡ some w')
        × IsAnswered f e.token fd w.msg_buf w'.msg_buf
  unfolding handle_error
  handle_error-IsAnswered r e w fd h =
      let (w', run, end) =
        unless_err-Hands (λ _. false) e.token fd w.msg_buf h r w _ refl
          (answer_error-Hands e.error e.token fd w h) in
      elim end [ inl (same, never) ↦ ground arith | inr answered ↦ (w', run, answered) ]
