-- ===== src/Server/Streams.antt =====
-- src/server/unixstreams.rs: the server's sockets to its workers.
pub mod Interest
pub mod Load
pub mod Drain
pub mod Waiting
pub mod Sending
pub mod Tests
use casket.Base.{
  ℕ, zero, suc, ◌+◌, ◌-◌, Bool, true, false, not, ◌&&◌, Option, none, some, List, [], ◌∷◌, ◌++◌,
  Bytes, Result, ok, err, ltb, ◌==◌, if◌then◌else◌, length, get_elem?, set, add_usize, sub_usize,
  usize_mod,
}
use casket.Msgs.Wire.{Request, Response, Format}
use casket.Msgs.ServerBuffer.{ServerMsgBuffer, Written}
use casket.Msgs.ServerBuffer

-- `neither` is the source's `Not`. A set of mio's `Interest`s is one of the other three.
pub data StreamInterest : Type 0 where
  neither read write read_write : StreamInterest

unfoldable pub from_rw : Bool → Bool → StreamInterest
from_rw false false = neither
from_rw false true = write
from_rw true false = read
from_rw true true = read_write

pub record UnixStream : Type 0 where
  pub token : ℕ
  pub msg_buffer : ServerMsgBuffer
  pub interest : StreamInterest
  pub num_reqs : ℕ

unfoldable pub new_stream : ℕ → UnixStream
new_stream token = record {
  token = token;
  msg_buffer = ServerBuffer.new;
  interest = neither;
  num_reqs = 0;
}

unfoldable pub read_stream :
    Format Response
    → UnixStream
    → Result Bytes Bytes
    → Option (UnixStream × Result Bytes (Unit {0}))
read_stream f s answer = elim (ServerBuffer.read_unix_stream f s.msg_buffer answer) [
  | none ↦ none
  | some (b, r) ↦ some (record s { msg_buffer = b }, r)
]

unfoldable pub write_stream :
    Format Request → UnixStream → ℕ → Result Bytes ℕ → UnixStream × Result Bytes (Unit {0})
write_stream f s room answer =
    let w = ServerBuffer.write_unix_stream f s.msg_buffer room answer in
    (record s { msg_buffer = w.state }, w.result)

-- The calls of mio's registry for one socket.
pub data Call : Type 0 where
  register reregister : StreamInterest → Call
  deregister : Call

-- A row of `if`s over calls with `?`: the calls that are made, and the result.
abbrev pub run_calls :
    (Call → Result Bytes (Unit {0})) → List (Bool × Call) → List Call × Result Bytes (Unit {0})
run_calls answer [] = ([], ok tt)
run_calls answer ((false, c) ∷ rest) = run_calls answer rest
run_calls answer ((true, c) ∷ rest) =
    let (calls, r) = run_calls answer rest in
    elim (answer c) [ ok _ ↦ (c ∷ calls, r) | err e ↦ (c ∷ [], err e) ]

abbrev pub guarded_calls : StreamInterest → Bool → Bool → List (Bool × Call)
guarded_calls neither poll_read poll_write =
    (poll_read && poll_write, register read_write)
    ∷ (not poll_read && poll_write, register write)
    ∷ (poll_read && not poll_write, register read)
    ∷ []
guarded_calls read poll_read poll_write =
    (not poll_read && not poll_write, deregister)
    ∷ (not poll_read && poll_write, reregister write)
    ∷ (poll_read && poll_write, reregister read_write)
    ∷ []
guarded_calls write poll_read poll_write =
    (not poll_read && not poll_write, deregister)
    ∷ (poll_read && not poll_write, reregister read)
    ∷ (poll_read && poll_write, reregister read_write)
    ∷ []
guarded_calls read_write poll_read poll_write =
    (not poll_read && not poll_write, deregister)
    ∷ (not poll_read && poll_write, reregister write)
    ∷ (poll_read && not poll_write, reregister read)
    ∷ []

abbrev pub poll_read : UnixStream → Bool
poll_read s = ltb 0 s.num_reqs

abbrev pub poll_write : UnixStream → Bool
poll_write s = ServerBuffer.has_data_to_send s.msg_buffer

-- The last two lines of `reregister`, which `?` skips.
unfoldable pub settle :
    UnixStream
    → List Call × Result Bytes (Unit {0})
    → UnixStream × List Call × Result Bytes (Unit {0})
unfolding from_rw
settle s (calls, ok _) =
    (record s { interest = from_rw (poll_read s) (poll_write s) }, calls, ok tt)
settle s (calls, err e) = (s, calls, err e)

unfoldable pub reregister_stream :
    (Call → Result Bytes (Unit {0})) → UnixStream → UnixStream × List Call × Result Bytes (Unit {0})
unfolding settle
reregister_stream answer s =
    settle s (run_calls answer (guarded_calls s.interest (poll_read s) (poll_write s)))

unfoldable pub next_stream_tk : UnixStream → UnixStream × Option ℕ
next_stream_tk s =
    let (b, next) = ServerBuffer.next_stream_tk s.msg_buffer in
    elim next [
      | some tk ↦ (record s { msg_buffer = b; num_reqs = sub_usize s.num_reqs 1 }, some tk)
      | none ↦ (record s { msg_buffer = b }, none)
    ]

unfoldable pub next_stream_close_tk : UnixStream → UnixStream × Option ℕ
next_stream_close_tk s =
    let (b, next) = ServerBuffer.next_stream_close_tk s.msg_buffer in
    elim next [
      | some tk ↦ (record s { msg_buffer = b; num_reqs = sub_usize s.num_reqs 1 }, some tk)
      | none ↦ (record s { msg_buffer = b }, none)
    ]

unfoldable pub send_to_stream : UnixStream → ℕ → ℕ → UnixStream
send_to_stream s tk fd = record s {
  num_reqs = add_usize s.num_reqs 1;
  msg_buffer = ServerBuffer.req_tcp_stream_fd s.msg_buffer tk fd;
}

-- `UnixStreams`. The first stream with the token, and the streams with it changed.
unfoldable pub get_mut : List UnixStream → ℕ → Option UnixStream
get_mut [] tk = none
get_mut (s ∷ streams) tk = if s.token == tk then some s else get_mut streams tk

unfoldable pub put_mut : List UnixStream → ℕ → UnixStream → List UnixStream
put_mut [] tk s' = []
put_mut (s ∷ streams) tk s' = if s.token == tk then s' ∷ streams else s ∷ put_mut streams tk s'

-- The `while let` over one stream; there are as many rounds as its queue is long, and one more.
unfoldable pub drain_tks : ℕ → UnixStream → UnixStream × List ℕ
drain_tks zero s = (s, [])
drain_tks (suc fuel) s =
    let (s', next) = next_stream_tk s in
    elim next [ none ↦ (s', []) | some tk ↦ let (s'', tks) = drain_tks fuel s' in (s'', tk ∷ tks) ]

unfoldable pub drain_close_tks : ℕ → UnixStream → UnixStream × List ℕ
drain_close_tks zero s = (s, [])
drain_close_tks (suc fuel) s =
    let (s', next) = next_stream_close_tk s in
    elim next [
      | none ↦ (s', [])
      | some tk ↦ let (s'', tks) = drain_close_tks fuel s' in (s'', tk ∷ tks)
    ]

unfoldable pub next_stream_tks : List UnixStream → List UnixStream × List ℕ
next_stream_tks [] = ([], [])
next_stream_tks (s ∷ streams) =
    let (s', tks) = drain_tks (suc (length s.msg_buffer.stream_tks)) s in
    let (streams', tks') = next_stream_tks streams in (s' ∷ streams', tks ++ tks')

unfoldable pub next_stream_close_tks : List UnixStream → List UnixStream × List ℕ
next_stream_close_tks [] = ([], [])
next_stream_close_tks (s ∷ streams) =
    let (s', tks) = drain_close_tks (suc (length s.msg_buffer.stream_close_tks)) s in
    let (streams', tks') = next_stream_close_tks streams in (s' ∷ streams', tks ++ tks')

-- The loop that looks for the least loaded stream, from index `n` on.
unfoldable pub least_loaded : List UnixStream → ℕ → ℕ → ℕ → ℕ
least_loaded [] n ind num_reqs = ind
least_loaded (s ∷ streams) n ind num_reqs =
    let better = ltb s.num_reqs num_reqs in
    least_loaded streams (suc n) (if better then n else ind)
      (if better then s.num_reqs else num_reqs)

-- `none` is the panic of `unwrap`, where there is no stream.
unfoldable pub msg_send_tcp_stream : List UnixStream → ℕ → ℕ → Option (List UnixStream)
msg_send_tcp_stream streams tk fd =
    let ind = least_loaded streams 0 0 (usize_mod - 1) in
    elim (get_elem? streams ind) [
      | none ↦ none
      | some s ↦ some (set streams ind (send_to_stream s tk fd))
    ]

-- `answer` is the registry's, for each socket.
unfoldable pub reregister_all :
    (ℕ → Call → Result Bytes (Unit {0})) → List UnixStream → List UnixStream × List Bytes
reregister_all answer [] = ([], [])
reregister_all answer (s ∷ streams) =
    let (s', _, r) = reregister_stream (answer s.token) s in
    let (streams', errors) = reregister_all answer streams in
    (s' ∷ streams', elim r [ ok _ ↦ errors | err e ↦ e ∷ errors ])
