-- ===== src/Msgs/WorkerBuffer.antt =====
-- `WorkerMsgBuffer`, a worker's end of the socket to the server.
pub mod Framing
pub mod Read
pub mod Respond
use casket.Base.{
  ℕ, zero, suc, ◌+◌, ◌-◌, ◌≤◌, ◌<◌, ◌%◌, ◌^◌, ◌≡◌, Bool, true, false, not, Option, none, some, List,
  [], ◌∷◌, ◌++◌, arith, Bytes, Result, ok, err, ltb, if◌then◌else◌, length, replicate, consume,
  take, codes, is_empty,
}
use casket.Base.Map.{Map, lookup, insert, remove}
use casket.Msgs.Wire.{Request, Response, Format, response_frame}
use casket.Msgs.Receive.{receive}

pub record WorkerMsgBuffer : Type 0 where
  pub read_buffer : Bytes
  pub read_buf_len : ℕ
  pub write_buffer : Bytes
  pub server_fds : Map ℕ
  pub stream_fds : List ℕ
  pub stream_msgs : List Request

unfoldable pub new : WorkerMsgBuffer
new = record {
  read_buffer = replicate 2048 0;
  read_buf_len = 0;
  write_buffer = [];
  server_fds = [];
  stream_fds = [];
  stream_msgs = [];
}

-- The test at the head of the `while` loop, the size field, and the test that breaks the loop.
unfoldable pub request_size : Bytes → Option ℕ
request_size [] = none
request_size (size ∷ rest) = if ltb (length (size ∷ rest)) (size + 1) then none else some size

-- `answer` is what `stream.read` gives, and `fds` are the descriptors that `dequeue` then gives.
unfoldable pub read_unix_stream :
    Format Request
    → WorkerMsgBuffer
    → Result Bytes Bytes
    → List ℕ
    → Option (WorkerMsgBuffer × Result Bytes (Unit {0}))
unfolding request_size receive
read_unix_stream f s (err e) fds = some (s, err e)
read_unix_stream f s (ok bytes) fds =
    elim (receive 1 request_size f.deserialize s.read_buffer s.read_buf_len bytes) [
      | none ↦ none
      | some (msgs, buffer, len) ↦ some (
        record s {
          read_buffer = buffer;
          read_buf_len = len;
          stream_msgs = s.stream_msgs ++ msgs;
          stream_fds = s.stream_fds ++ fds;
        },
        ok tt,
      )
    ]

-- The front descriptor with the front message; one without the other stays where it is.
unfoldable pub next_stream_fd : WorkerMsgBuffer → WorkerMsgBuffer × Option (ℕ × ℕ)
next_stream_fd s = elim s.stream_fds [
  | [] ↦ (s, none)
  | fd ∷ fds ↦ elim s.stream_msgs [
    | [] ↦ (s, none)
    | msg ∷ msgs ↦ (
      record s {
        stream_fds = fds;
        stream_msgs = msgs;
        server_fds = insert msg.token msg.fd s.server_fds;
      },
      some (msg.token, fd),
    )
  ]
]

unfoldable pub has_data_to_send : WorkerMsgBuffer → Bool
has_data_to_send s = not (is_empty s.write_buffer)

-- The bytes that go out, and the state after.
unfoldable pub write_unix_stream :
    WorkerMsgBuffer → Result Bytes ℕ → WorkerMsgBuffer × Bytes × Result Bytes (Unit {0})
write_unix_stream s (err e) = (s, [], err e)
write_unix_stream s (ok n) =
    (record s { write_buffer = consume n s.write_buffer }, take n s.write_buffer, ok tt)

-- The four `resp_*` methods differ in two fields; `none` is the panic of `expect`, for a token
-- that the server has not sent or that has been answered.
abbrev pub respond :
    Format Response → WorkerMsgBuffer → ℕ → Bool → Option Bytes → Option WorkerMsgBuffer
respond f s tk keep_alive error = elim (lookup tk s.server_fds) [
  | none ↦ none
  | some fd ↦ some (record s {
    server_fds = remove tk s.server_fds;
    write_buffer =
        s.write_buffer
        ++ response_frame f
            (record { token = tk; fd = fd; keep_alive = keep_alive; error = error });
  })
]

-- An I/O error is its `Display` text.
unfoldable pub resp_io_error :
    Format Response → WorkerMsgBuffer → ℕ → Bytes → Option WorkerMsgBuffer
resp_io_error f s tk e = respond f s tk false (some (codes "i/o error with stream-" ++ e))

unfoldable pub resp_bad_client : Format Response → WorkerMsgBuffer → ℕ → Option WorkerMsgBuffer
resp_bad_client f s tk = respond f s tk false (some (codes "badly formed client request"))

unfoldable pub resp_stream_reg_error :
    Format Response → WorkerMsgBuffer → ℕ → Bytes → Option WorkerMsgBuffer
resp_stream_reg_error f s tk e =
    respond f s tk false (some (codes "couldn't register stream with mio-" ++ e))

-- The descriptor that the source takes here is not used.
unfoldable pub resp_stream_done_ok :
    Format Response → WorkerMsgBuffer → ℕ → ℕ → Bool → Option WorkerMsgBuffer
resp_stream_done_ok f s tk fd keep_alive = respond f s tk keep_alive none
