-- ===== src/Server/Capacity.antt =====
-- The limit on the number of streams.
use casket.Base.{
  ℕ, ◌+◌, ◌≤◌, ◌≡◌, inl, inr, Option-cases, Bool-cases, Option, none, some, arith, length, ◌==◌,
  add_usize,
}
use native.Mathlib.Nat.{le_trans}
use casket.Base.Map.{lookup, length-remove, length-remove-le, length-insert-le}
use casket.Config.{Config}
use casket.Msgs.Wire.{Request, Response, Format}
use casket.Server.Ensures.{Ensures, >>=-Ensures, each-Ensures}
use casket.Server.Streams.{
  UnixStream, get_mut, next_stream_tks, next_stream_close_tks, reregister_all,
}
use casket.Server.{
  Server, Event, Turn, Outcome, ◌>>=◌, keep_stream, close_stream, accept_stream, hand_over,
  serve_unix_stream, handle_event, check_exit, take_kept, take_closed, handle_events, serve_known,
  serve_client, serve_listener, check_running, run_turn, server_token, keep_alive_count_inc,
}

abbrev pub num_streams : Server → ℕ
num_streams s = length s.reading_streams + length s.processing_streams

-- Where the loop goes on or stops, there are at most `k` streams.
abbrev pub Holds : ℕ → Outcome → Type 0
Holds k = Ensures (λ s. num_streams s ≤ k)

keep_stream-Holds :
    (k : ℕ) (t : Turn) (tk : ℕ) (s : Server) → num_streams s ≤ k → Holds k (keep_stream t tk s)
unfolding keep_stream
keep_stream-Holds k t tk s h = elim (Option-cases (lookup tk s.processing_streams)) [
  | inl e ↦ rw (e, keep_stream) tt
  | inr (stream, e) ↦ ground (
    arith,
    length-remove tk stream s.processing_streams e,
    length-insert-le (add_usize tk keep_alive_count_inc) stream s.reading_streams,
  )
]

close_stream-Holds : (k tk : ℕ) (s : Server) → num_streams s ≤ k → Holds k (close_stream tk s)
unfolding close_stream
close_stream-Holds k tk s h = ground (arith, length-remove-le tk s.processing_streams)

accept_stream-Holds :
    (cfg : Config) (t : Turn) (stream : ℕ) (s : Server)
    → num_streams s ≤ cfg.max_conns
    → Holds cfg.max_conns (accept_stream cfg t stream s)
unfolding accept_stream
accept_stream-Holds cfg t stream s h =
    ground (arith, length-insert-le s.client_stream_count stream s.reading_streams)

hand_over-Holds :
    (k : ℕ) (t : Turn) (tk stream : ℕ) (s : Server)
    → lookup tk s.reading_streams ≡ some stream
    → num_streams s ≤ k
    → Holds k (hand_over t tk stream s)
unfolding hand_over
hand_over-Holds k t tk stream s e h = ground (
  arith,
  length-remove tk stream s.reading_streams e,
  length-insert-le tk stream s.processing_streams,
)

check_exit-Holds :
    (k : ℕ) (cfg : Config) (t : Turn) (s : Server)
    → num_streams s ≤ k
    → Holds k (check_exit cfg t s)
unfolding check_exit
check_exit-Holds k cfg t s h = ground arith

check_running-le : (t : Turn) (s : Server) → num_streams (check_running t s) ≤ num_streams s
unfolding check_running
check_running-le t s = ground arith

take_kept-Holds : (k : ℕ) (t : Turn) (s : Server) → num_streams s ≤ k → Holds k (take_kept t s)
unfolding take_kept
take_kept-Holds k t s h =
    let (streams, tks) = next_stream_tks (reregister_all t.unix_registry s.unix_streams).0 in
    each-Ensures {P = λ s. num_streams s ≤ k} (keep_stream t) tks
      (record s { unix_streams = streams }) (keep_stream-Holds k t) h

take_closed-Holds : (k : ℕ) (s : Server) → num_streams s ≤ k → Holds k (take_closed s)
unfolding take_closed
take_closed-Holds k s h =
    let (streams, tks) = next_stream_close_tks s.unix_streams in
    each-Ensures {P = λ s. num_streams s ≤ k} close_stream tks (record s { unix_streams = streams })
      (close_stream-Holds k) h

module _ (requests : Format Request) (responses : Format Response) where
  serve_unix_stream-Holds :
      (k : ℕ) (ev : Event) (stream : UnixStream) (s : Server)
      → num_streams s ≤ k
      → Holds k (serve_unix_stream requests responses ev stream s)
  unfolding serve_unix_stream
  serve_unix_stream-Holds k ev stream s h = ground arith

  known-Holds :
      (k : ℕ) (ev : Event) (s : Server)
      → num_streams s ≤ k
      → Holds k (serve_known requests responses ev s)
  unfolding serve_known
  known-Holds k ev s h = elim (Option-cases (get_mut s.unix_streams ev.token)) [
    | inl e ↦ rw (e, serve_known) tt
    | inr (stream, e) ↦ rw (e, serve_known) (serve_unix_stream-Holds k ev stream s h)
  ]

  client-Holds :
      (k : ℕ) (t : Turn) (ev : Event) (s : Server)
      → num_streams s ≤ k
      → Holds k (serve_client requests responses t ev s)
  unfolding serve_client
  client-Holds k t ev s h = elim (Option-cases (lookup ev.token s.reading_streams)) [
    | inl e ↦ rw (e, serve_client) (known-Holds k ev s h)
    | inr (stream, e) ↦ rw (e, serve_client) (hand_over-Holds k t ev.token stream s e h)
  ]

  listener-Holds :
      (cfg : Config) (t : Turn) (accepted : Option ℕ) (s : Server)
      → num_streams s ≤ cfg.max_conns
      → Holds cfg.max_conns (serve_listener cfg t accepted s)
  unfolding serve_listener
  listener-Holds cfg t none s h = h
  listener-Holds cfg t (some stream) s h = accept_stream-Holds cfg t stream s h

  handle_event-Holds :
      (cfg : Config) (t : Turn) (ev : Event) (s : Server)
      → num_streams s ≤ cfg.max_conns
      → Holds cfg.max_conns (handle_event requests responses cfg t ev s)
  unfolding handle_event
  handle_event-Holds cfg t ev s h = elim (Bool-cases (ev.token == server_token)) [
    | inl e ↦ rw e (listener-Holds cfg t ev.accepted s h)
    | inr e ↦ rw e (client-Holds cfg.max_conns t ev s h)
  ]

  handle_events-Holds :
      (cfg : Config) (t : Turn) (s : Server)
      → num_streams s ≤ cfg.max_conns
      → Holds cfg.max_conns (handle_events requests responses cfg t s)
  unfolding handle_events
  handle_events-Holds cfg t s h =
      each-Ensures {P = λ s. num_streams s ≤ cfg.max_conns} (handle_event requests responses cfg t)
        t.events (check_running t s) (handle_event-Holds cfg t) (le_trans (check_running-le t s) h)

  -- However the operating system and the workers behave, a round of the loop that does not fail
  -- leaves no more than `max_conns` streams open, if there were no more before it: those being
  -- read from and those with a worker together.
  pub run_turn-max_conns :
      (cfg : Config) (t : Turn) (s : Server)
      → num_streams s ≤ cfg.max_conns
      → Holds cfg.max_conns (run_turn requests responses cfg t s)
  unfolding run_turn
  run_turn-max_conns cfg t s h =
      let k = cfg.max_conns in
      let kept = check_exit cfg t s >>= take_kept t in
      >>=-Ensures {P = λ s. num_streams s ≤ k} (kept >>= take_closed)
        (handle_events requests responses cfg t)
        (>>=-Ensures {P = λ s. num_streams s ≤ k} kept take_closed
          (>>=-Ensures {P = λ s. num_streams s ≤ k} (check_exit cfg t s) (take_kept t)
            (check_exit-Holds k cfg t s h) (take_kept-Holds k t))
          (take_closed-Holds k))
        (handle_events-Holds cfg t)
