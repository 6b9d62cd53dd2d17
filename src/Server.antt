-- ===== src/Server.antt =====
-- src/server/mod.rs: the loop of the server. A client's stream is read from (`reading_streams`) or
-- is with a worker (`processing_streams`); its token grows with each request on it.
-- A stream stands as the descriptor that it is. What the operating system answers in one round of
-- the loop is a `Turn`. I/O errors are only logged, and leave no trace in the state.
pub mod Streams
pub mod Ensures
pub mod Capacity
pub mod Tokens
pub mod Shutdown
pub mod Owed
pub mod Answered
pub mod Rounds
pub mod Heard
pub mod RoundTests
pub mod Tests
use casket.Base.{
  ℕ, zero, suc, ◌+◌, ◌-◌, ◌*◌, ◌^◌, Bool, true, false, not, ◌&&◌, ◌||◌, Option, none, some, List,
  [], ◌∷◌, ◌++◌, map, Bytes, Result, ok, err, ltb, leb, ◌==◌, if◌then◌else◌, length, add_usize,
  is_empty,
}
use casket.Base.Map.{Map, lookup, insert, remove}
use casket.Config.{Config}
use casket.Errors.{RuntimeError, unknown_token}
use casket.Msgs.Wire.{Request, Response, Format}
use Streams.{
  UnixStream, Call, new_stream, read_stream, write_stream, get_mut, put_mut, next_stream_tks,
  next_stream_close_tks, msg_send_tcp_stream, reregister_all,
}

abbrev pub new_stream_count_inc : ℕ
new_stream_count_inc = 2 ^ 24

abbrev pub keep_alive_count_inc : ℕ
keep_alive_count_inc = 2 ^ 7

abbrev pub server_token : ℕ
server_token = 0

-- The variables of `run_server`. `shut` is a record of the streams on which `shutdown` was called.
pub record Server : Type 0 where
  pub unix_streams : List UnixStream
  pub client_stream_count : ℕ
  pub reading_streams : Map ℕ
  pub processing_streams : Map ℕ
  pub run_shutdown : Bool
  pub ctrlc_instant : Option ℕ
  pub shut : List ℕ

-- One event of `poll`, with what the sockets answer if they are used: `accepted` is the stream
-- that `accept` gives, the last three are those of a unix socket.
pub record Event : Type 0 where
  pub token : ℕ
  pub readable : Bool
  pub writable : Bool
  pub accepted : Option ℕ
  pub read : Result Bytes Bytes
  pub room : ℕ
  pub written : Result Bytes ℕ

pub record Turn : Type 0 where
  pub elapsed : Option ℕ
  pub close_now : Bool
  pub unix_registry : ℕ → Call → Result Bytes (Unit {0})
  pub register : ℕ → Result Bytes (Unit {0})
  pub deregister : ℕ → Result Bytes (Unit {0})
  pub poll_is_err : Bool
  pub running : Bool
  pub now : ℕ
  pub events : List Event

-- How a round ends: with the next, with `Ok(())`, with an error, or in a panic.
pub data Outcome : Type 0 where
  next stopped : Server → Outcome
  failed : RuntimeError → Outcome
  panicked : Outcome

infixl 5 ◌>>=◌
abbrev pub ◌>>=◌ : Outcome → (Server → Outcome) → Outcome
next s >>= f = f s
stopped s >>= f = stopped s
failed e >>= f = failed e
panicked >>= f = panicked

-- The `for` over `next_stream_tks`: a stream goes back to being read, under its next token.
unfoldable pub keep_stream : Turn → ℕ → Server → Outcome
keep_stream t tk s = elim (lookup tk s.processing_streams) [
  | none ↦ panicked
  | some stream ↦
      let s' : Server = record s { processing_streams = remove tk s.processing_streams } in
      let new_tk = add_usize tk keep_alive_count_inc in
      if s.run_shutdown
      then next (record s' { shut = s.shut ++ stream ∷ [] })
      else elim (t.register new_tk) [
        | err e ↦ next s'
        | ok _ ↦ next (record s' { reading_streams = insert new_tk stream s.reading_streams })
      ]
]

-- The `for` over `next_stream_close_tks`.
unfoldable pub close_stream : ℕ → Server → Outcome
close_stream tk s = elim (lookup tk s.processing_streams) [
  | none ↦ panicked
  | some stream ↦ next (record s {
    processing_streams = remove tk s.processing_streams;
    shut = s.shut ++ stream ∷ [];
  })
]

abbrev pub each : {A : Type 0} → (A → Server → Outcome) → List A → Server → Outcome
each f [] s = next s
each f (x ∷ xs) s = f x s >>= each f xs

abbrev pub values : Map ℕ → List ℕ
values = map (λ e. e.1)

-- The idle streams that can be deregistered.
unfoldable pub shut_idle : Turn → Map ℕ → List ℕ
shut_idle t [] = []
shut_idle t ((tk, stream) ∷ streams) = elim (t.deregister tk) [
  | ok _ ↦ stream ∷ shut_idle t streams
  | err e ↦ shut_idle t streams
]

-- `fn shutdown`: a stream that cannot be deregistered is dropped without `shutdown`.
unfoldable pub shutdown : Turn → Server → Server
unfolding shut_idle
shutdown t s = record s { reading_streams = []; shut = s.shut ++ shut_idle t s.reading_streams }

-- `listener.accept()` and what follows it.
unfoldable pub accept_stream : Config → Turn → ℕ → Server → Outcome
accept_stream cfg t stream s =
    let tk = s.client_stream_count in
    let s' : Server = record s { client_stream_count = add_usize tk new_stream_count_inc } in
    if leb cfg.max_conns (length s.reading_streams + length s.processing_streams)
    then next s'
    else elim (t.register tk) [
      | err e ↦ next s'
      | ok _ ↦ next (record s' { reading_streams = insert tk stream s.reading_streams })
    ]

-- A client's stream has something to read: it goes to a worker.
unfoldable pub hand_over : Turn → ℕ → ℕ → Server → Outcome
hand_over t tk stream s =
    let s' : Server = record s { reading_streams = remove tk s.reading_streams } in
    elim (t.deregister tk) [
      | err e ↦ next s'
      | ok _ ↦ elim (msg_send_tcp_stream s.unix_streams tk stream) [
        | none ↦ panicked
        | some unix_streams ↦ next (record s' {
          unix_streams = unix_streams;
          processing_streams = insert tk stream s.processing_streams;
        })
      ]
    ]

abbrev pub read_if : Format Response → Event → UnixStream → Option UnixStream
read_if f ev stream =
    if ev.readable
    then (elim (read_stream f stream ev.read) [ none ↦ none | some (stream', _) ↦ some stream' ])
    else some stream

abbrev pub ctrlc_expired : Config → Turn → Server → Option Server
ctrlc_expired cfg t s = elim s.ctrlc_instant [
  | none ↦ none
  | some _ ↦ elim t.elapsed [
    | none ↦ some s
    | some elapsed ↦
        if leb cfg.ctrlc_wait_time elapsed
        then some
            (record s { processing_streams = []; shut = s.shut ++ values s.processing_streams })
        else none
  ]
]

-- `instant.elapsed()` is `none` where the clock has gone back.
unfoldable pub check_exit : Config → Turn → Server → Outcome
check_exit cfg t s =
    if s.run_shutdown && is_empty s.processing_streams
    then stopped s
    else elim (ctrlc_expired cfg t s) [
      | some s' ↦ stopped s'
      | none ↦ if t.close_now then stopped s else next s
    ]

-- The sockets are registered anew, and then the `for` loops over what the workers sent back.
unfoldable pub take_kept : Turn → Server → Outcome
unfolding keep_stream
take_kept t s =
    let (unix_streams, _) = reregister_all t.unix_registry s.unix_streams in
    let (unix_streams', tks) = next_stream_tks unix_streams in
    each (keep_stream t) tks (record s { unix_streams = unix_streams' })

unfoldable pub take_closed : Server → Outcome
unfolding close_stream
take_closed s =
    let (unix_streams, tks) = next_stream_close_tks s.unix_streams in
    each close_stream tks (record s { unix_streams = unix_streams })

-- After `poll`: the first that is seen of a signal shuts the idle streams.
unfoldable pub check_running : Turn → Server → Server
unfolding shutdown
check_running t s =
    if (t.poll_is_err || not t.running) && not s.run_shutdown
    then record (shutdown t s) { ctrlc_instant = some t.now; run_shutdown = true }
    else s

unfoldable pub serve_listener : Config → Turn → Option ℕ → Server → Outcome
unfolding accept_stream
serve_listener cfg t none s = next s
serve_listener cfg t (some stream) s = accept_stream cfg t stream s

module _ (requests : Format Request) (responses : Format Response) where
  -- A worker's socket is readable, writable or both.
  unfoldable pub serve_unix_stream : Event → UnixStream → Server → Outcome
  serve_unix_stream ev stream s = elim (read_if responses ev stream) [
    | none ↦ panicked
    | some stream' ↦
        let stream'' =
          if ev.writable then (write_stream requests stream' ev.room ev.written).0 else stream' in
        next (record s { unix_streams = put_mut s.unix_streams ev.token stream'' })
  ]

  unfoldable pub serve_known : Event → Server → Outcome
  unfolding serve_unix_stream
  serve_known ev s = elim (get_mut s.unix_streams ev.token) [
    | some unix_stream ↦ serve_unix_stream ev unix_stream s
    | none ↦ failed unknown_token
  ]

  unfoldable pub serve_client : Turn → Event → Server → Outcome
  unfolding hand_over serve_known
  serve_client t ev s = elim (lookup ev.token s.reading_streams) [
    | some stream ↦ hand_over t ev.token stream s
    | none ↦ serve_known ev s
  ]

  unfoldable pub handle_event : Config → Turn → Event → Server → Outcome
  unfolding serve_listener serve_client
  handle_event cfg t ev s =
      if ev.token == server_token then serve_listener cfg t ev.accepted s else serve_client t ev s

  unfoldable pub handle_events : Config → Turn → Server → Outcome
  unfolding handle_event check_running
  handle_events cfg t s = each (handle_event cfg t) t.events (check_running t s)

  -- One round of the loop.
  unfoldable pub run_turn : Config → Turn → Server → Outcome
  unfolding check_exit take_kept take_closed handle_events
  run_turn cfg t s = check_exit cfg t s >>= take_kept t >>= take_closed >>= handle_events cfg t

-- Before the loop: a socket for each worker, with the tokens from 1.
unfoldable pub new_unix_streams : ℕ → ℕ → List UnixStream
new_unix_streams zero tk_num = []
new_unix_streams (suc n) tk_num = new_stream tk_num ∷ new_unix_streams n (tk_num + 1)

unfoldable pub start : ℕ → Server
unfolding new_unix_streams
start num_workers = record {
  unix_streams = new_unix_streams num_workers 1;
  client_stream_count = new_stream_count_inc;
  reading_streams = [];
  processing_streams = [];
  run_shutdown = false;
  ctrlc_instant = none;
  shut = [];
}
