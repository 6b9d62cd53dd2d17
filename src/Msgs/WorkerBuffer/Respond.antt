-- ===== src/Msgs/WorkerBuffer/Respond.antt =====
-- The four `resp_*` methods and the write of what they queue.
use casket.Base.{
  ℕ, ◌≤◌, ◌≡◌, ◌≢◌, refl, ◌∙◌, ap, Bool, false, Option, none, some, ◌++◌, arith, Bytes, ok, take,
  length, length-take, consume-eq-drop, take-append-drop, codes,
}
use casket.Base.Map.{lookup, remove, IsMap, lookup-remove_self, lookup-remove_ne, remove-IsMap}
use casket.Msgs.Wire.{Response, Format, response_frame}
use casket.Msgs.WorkerBuffer.{
  WorkerMsgBuffer, respond, resp_io_error, resp_bad_client, resp_stream_reg_error,
  resp_stream_done_ok, write_unix_stream,
}

-- How a stream comes back to the server.
pub data Reply : Type 0 where
  io_error : Bytes → Reply
  bad_client : Reply
  stream_reg_error : Bytes → Reply
  done_ok : ℕ → Bool → Reply

unfoldable pub reply : Format Response → WorkerMsgBuffer → ℕ → Reply → Option WorkerMsgBuffer
unfolding resp_io_error resp_bad_client resp_stream_reg_error resp_stream_done_ok
reply f s tk (io_error e) = resp_io_error f s tk e
reply f s tk bad_client = resp_bad_client f s tk
reply f s tk (stream_reg_error e) = resp_stream_reg_error f s tk e
reply f s tk (done_ok fd keep_alive) = resp_stream_done_ok f s tk fd keep_alive

-- The response that each of the methods is to send.
abbrev pub response : ℕ → ℕ → Reply → Response
response tk fd (io_error e) = record {
  token = tk;
  fd = fd;
  keep_alive = false;
  error = some (codes "i/o error with stream-" ++ e);
}
response tk fd bad_client = record {
  token = tk;
  fd = fd;
  keep_alive = false;
  error = some (codes "badly formed client request");
}
response tk fd (stream_reg_error e) = record {
  token = tk;
  fd = fd;
  keep_alive = false;
  error = some (codes "couldn't register stream with mio-" ++ e);
}
response tk fd (done_ok _ keep_alive) = record {
  token = tk;
  fd = fd;
  keep_alive = keep_alive;
  error = none;
}

respond_known :
    (f : Format Response) (s : WorkerMsgBuffer) (tk fd : ℕ) (keep_alive : Bool)
    (error : Option Bytes)
    → lookup tk s.server_fds ≡ some fd
    → respond f s tk keep_alive error
      ≡ some (record s {
        server_fds = remove tk s.server_fds;
        write_buffer =
            s.write_buffer
            ++ response_frame f
                (record { token = tk; fd = fd; keep_alive = keep_alive; error = error });
      })
respond_known f s tk fd keep_alive error e = rw (e, respond) refl

respond_unknown :
    (f : Format Response) (s : WorkerMsgBuffer) (tk : ℕ) (keep_alive : Bool) (error : Option Bytes)
    → lookup tk s.server_fds ≡ none
    → respond f s tk keep_alive error ≡ none
respond_unknown f s tk keep_alive error e = rw (e, respond) refl

pub reply_known :
    (f : Format Response) (s : WorkerMsgBuffer) (tk fd : ℕ) (r : Reply)
    → lookup tk s.server_fds ≡ some fd
    → reply f s tk r
      ≡ some (record s {
        server_fds = remove tk s.server_fds;
        write_buffer = s.write_buffer ++ response_frame f (response tk fd r);
      })
unfolding reply
reply_known f s tk fd (io_error x) e = respond_known f s tk fd false _ e
reply_known f s tk fd bad_client e = respond_known f s tk fd false _ e
reply_known f s tk fd (stream_reg_error x) e = respond_known f s tk fd false _ e
reply_known f s tk fd (done_ok _ keep_alive) e = respond_known f s tk fd keep_alive none e

reply_unknown :
    (f : Format Response) (s : WorkerMsgBuffer) (tk : ℕ) (r : Reply)
    → lookup tk s.server_fds ≡ none
    → reply f s tk r ≡ none
unfolding reply
reply_unknown f s tk (io_error x) e = respond_unknown f s tk false _ e
reply_unknown f s tk bad_client e = respond_unknown f s tk false _ e
reply_unknown f s tk (stream_reg_error x) e = respond_unknown f s tk false _ e
reply_unknown f s tk (done_ok _ keep_alive) e = respond_unknown f s tk keep_alive none e

-- Each of the four methods, for a token whose request the worker has taken: the response, with the
-- descriptor that the server gave, is queued behind the others; every other token stays open, and
-- a second response for this one, by any of the methods, would panic.
pub reply-once :
    (f : Format Response) (s : WorkerMsgBuffer) (tk fd : ℕ) (r again : Reply)
    → IsMap s.server_fds
    → lookup tk s.server_fds ≡ some fd
    → (s' : WorkerMsgBuffer) × (reply f s tk r ≡ some s')
      × (s'.write_buffer ≡ s.write_buffer ++ response_frame f (response tk fd r))
      × ((other : ℕ) → other ≢ tk → lookup other s'.server_fds ≡ lookup other s.server_fds)
      × IsMap s'.server_fds
      × (reply f s' tk again ≡ none)
reply-once f s tk fd r again v e =
    let s' : WorkerMsgBuffer = record s {
      server_fds = remove tk s.server_fds;
      write_buffer = s.write_buffer ++ response_frame f (response tk fd r);
    } in
    (
      s',
      reply_known f s tk fd r e,
      refl,
      λ other ne. lookup-remove_ne tk other s.server_fds ne,
      remove-IsMap tk s.server_fds v,
      reply_unknown f s' tk again (lookup-remove_self tk s.server_fds v),
    )

-- When the socket takes a number of bytes, at most those that wait, exactly so many go out, the
-- write succeeds, and the bytes handed over followed by those still to write are those that were
-- to be written.
pub write_responses-conserves :
    (s : WorkerMsgBuffer) (n : ℕ)
    → n ≤ length s.write_buffer
    → let (s', bytes, r) = write_unix_stream s (ok n) in
      (bytes ++ s'.write_buffer ≡ s.write_buffer) × (length bytes ≡ n) × (r ≡ ok tt)
unfolding write_unix_stream
write_responses-conserves s n h = (
  ap (◌++◌ (take n s.write_buffer)) (consume-eq-drop n s.write_buffer h)
      ∙ take-append-drop n s.write_buffer,
  omega (arith, length-take n s.write_buffer),
  refl,
)
