-- ===== src/Msgs/ServerBuffer.antt =====
-- `ServerMsgBuffer`, the server's end of the socket to a worker.
pub mod Framing
pub mod Read
pub mod Write
use casket.Base.{
  ℕ, zero, suc, ◌+◌, ◌-◌, ◌*◌, ◌≤◌, ◌<◌, ◌≡◌, Bool, true, false, not, ◌&&◌, ◌||◌, Option, none,
  some, List, [], ◌∷◌, ◌++◌, arith, Bytes, Result, ok, err, ltb, if◌then◌else◌, length, resize,
  replicate, consume, take, is_empty,
}
use casket.Msgs.Wire.{Request, Response, Format, from_be_bytes, request_frame}
use casket.Msgs.Receive.{receive}

pub record ServerMsgBuffer : Type 0 where
  pub read_buffer : Bytes
  pub read_buf_len : ℕ
  pub stream_tks : List (ℕ × ℕ)
  pub stream_close_tks : List (ℕ × ℕ)
  pub to_send : List (Request × ℕ)
  pub write_buffer : Bytes

unfoldable pub new : ServerMsgBuffer
new = record {
  read_buffer = replicate 2048 0;
  read_buf_len = 0;
  stream_tks = [];
  stream_close_tks = [];
  to_send = [];
  write_buffer = [];
}

-- The test at the head of the `while` loop, the size field, and the test that breaks the loop.
unfoldable pub response_size : Bytes → Option ℕ
response_size buf =
    if ltb 4 (length buf)
    then (if ltb (length buf) (from_be_bytes buf + 4) then none else some (from_be_bytes buf))
    else none

abbrev pub is_none {ℓ} : {A : Type ℓ} → Option A → Bool
is_none none = true
is_none (some _) = false

-- The stream may serve another request, or is to be closed.
abbrev pub keeps : Response → Bool
keeps msg = msg.keep_alive && is_none msg.error

unfoldable pub dispatch : ServerMsgBuffer → List Response → ServerMsgBuffer
dispatch s [] = s
dispatch s (msg ∷ msgs) =
    dispatch
      (if keeps msg
        then record s { stream_tks = s.stream_tks ++ (msg.token, msg.fd) ∷ [] }
        else record s { stream_close_tks = s.stream_close_tks ++ (msg.token, msg.fd) ∷ [] })
      msgs

-- The buffer in which the socket may write, behind the bytes that are there.
abbrev pub grown : ServerMsgBuffer → Bytes
grown s =
    if ltb (length s.read_buffer - s.read_buf_len) 512
    then resize (length s.read_buffer * 2) 0 s.read_buffer
    else s.read_buffer

-- `answer` is what `stream.read` gives: the bytes that it has written, or an error.
unfoldable pub read_unix_stream :
    Format Response
    → ServerMsgBuffer
    → Result Bytes Bytes
    → Option (ServerMsgBuffer × Result Bytes (Unit {0}))
unfolding response_size receive
read_unix_stream f s (err e) = some (record s { read_buffer = grown s }, err e)
read_unix_stream f s (ok bytes) =
    elim (receive 4 response_size f.deserialize (grown s) s.read_buf_len bytes) [
      | none ↦ none
      | some (msgs, buffer, len) ↦
          some (dispatch (record s { read_buffer = buffer; read_buf_len = len }) msgs, ok tt)
    ]

unfoldable pub next_stream_tk : ServerMsgBuffer → ServerMsgBuffer × Option ℕ
next_stream_tk s = elim s.stream_tks [
  | [] ↦ (s, none)
  | (tk, _) ∷ rest ↦ (record s { stream_tks = rest }, some tk)
]

unfoldable pub next_stream_close_tk : ServerMsgBuffer → ServerMsgBuffer × Option ℕ
next_stream_close_tk s = elim s.stream_close_tks [
  | [] ↦ (s, none)
  | (tk, _) ∷ rest ↦ (record s { stream_close_tks = rest }, some tk)
]

-- The loop over `to_send`, where the socket takes `room` more descriptors. The result: what is
-- still to send, the bytes to write, and the descriptors that the socket has taken.
unfoldable pub enqueue_loop :
    Format Request → ℕ → List (Request × ℕ) → Bytes → List (Request × ℕ) × Bytes × List ℕ
enqueue_loop f room [] buf = ([], buf, [])
enqueue_loop f zero (e ∷ rest) buf = (e ∷ rest, buf, [])
enqueue_loop f (suc room) ((msg, fd) ∷ rest) buf =
    let (left, buf', fds) = enqueue_loop f room rest (buf ++ request_frame f msg) in
    (left, buf', fd ∷ fds)

-- What a write has handed to the socket.
pub record Written (S : Type 0) : Type 0 where
  pub state : S
  pub fds : List ℕ
  pub bytes : Bytes
  pub result : Result Bytes (Unit {0})

-- `answer` is what `stream.write` gives: how many bytes it has taken, or an error.
unfoldable pub write_unix_stream :
    Format Request → ServerMsgBuffer → ℕ → Result Bytes ℕ → Written ServerMsgBuffer
write_unix_stream f s room answer =
    let (left, buf, fds) = enqueue_loop f room s.to_send s.write_buffer in
    elim answer [
      | err e ↦ record {
        state = record s { to_send = left; write_buffer = buf };
        fds = fds;
        bytes = [];
        result = err e;
      }
      | ok n ↦ record {
        state = record s { to_send = left; write_buffer = consume n buf };
        fds = fds;
        bytes = take n buf;
        result = ok tt;
      }
    ]

unfoldable pub has_data_to_send : ServerMsgBuffer → Bool
has_data_to_send s = not (is_empty s.to_send) || not (is_empty s.write_buffer)

unfoldable pub req_tcp_stream_fd : ServerMsgBuffer → ℕ → ℕ → ServerMsgBuffer
req_tcp_stream_fd s tk fd = record s {
  to_send = s.to_send ++ (record { token = tk; fd = fd }, fd) ∷ [];
}
