-- ===== src/Server/Shutdown.antt =====
-- What a signal does to the loop of the server.
use casket.Base.{
  ℕ, ◌≤◌, ◌≡◌, ◌≢◌, refl, ap, inl, inr, Option-cases, Bool-cases, true, false, Option, none, some,
  List, [], ◌∷◌, arith, length, ◌==◌, All,
}
use native.Mathlib.Nat.{le_refl}
use casket.Base.Map.{lookup, length-remove-le}
use casket.Config.{Config}
use casket.Errors.{unknown_token}
use casket.Msgs.Wire.{Request, Response, Format}
use casket.Server.Ensures.{Ensures, >>=-Ensures, each-Ensures}
use casket.Server.Streams.{
  UnixStream, get_mut, next_stream_tks, next_stream_close_tks, reregister_all,
}
use casket.Server.{
  Server, Event, Turn, failed, ◌>>=◌, each, keep_stream, close_stream, serve_unix_stream,
  handle_event, check_exit, take_kept, take_closed, handle_events, serve_known, serve_client,
  serve_listener, check_running, shutdown, run_turn, server_token,
}

-- The server is shutting down: no stream is read from, and at most `n` are with a worker.
abbrev pub Drains : ℕ → Server → Type 0
Drains n s = (s.run_shutdown ≡ true) × (s.reading_streams ≡ []) × (length s.processing_streams ≤ n)

keep_stream-Drains :
    (n : ℕ) (t : Turn) (tk : ℕ) (s : Server) → Drains n s → Ensures (Drains n) (keep_stream t tk s)
unfolding keep_stream
keep_stream-Drains n t tk s h = ground (arith, length-remove-le tk s.processing_streams)

close_stream-Drains : (n tk : ℕ) (s : Server) → Drains n s → Ensures (Drains n) (close_stream tk s)
unfolding close_stream
close_stream-Drains n tk s h = ground (arith, length-remove-le tk s.processing_streams)

check_exit-Drains :
    (cfg : Config) (t : Turn) (n : ℕ) (s : Server)
    → Drains n s
    → Ensures (Drains n) (check_exit cfg t s)
unfolding check_exit
check_exit-Drains cfg t n s h = ground arith

check_running-Drains : (n : ℕ) (t : Turn) (s : Server) → Drains n s → Drains n (check_running t s)
unfolding check_running
check_running-Drains n t s h = ground arith

take_kept-Drains : (n : ℕ) (t : Turn) (s : Server) → Drains n s → Ensures (Drains n) (take_kept t s)
unfolding take_kept
take_kept-Drains n t s h =
    let (streams, tks) = next_stream_tks (reregister_all t.unix_registry s.unix_streams).0 in
    each-Ensures {P = Drains n} (keep_stream t) tks (record s { unix_streams = streams })
      (keep_stream-Drains n t) h

take_closed-Drains : (n : ℕ) (s : Server) → Drains n s → Ensures (Drains n) (take_closed s)
unfolding take_closed
take_closed-Drains n s h =
    let (streams, tks) = next_stream_close_tks s.unix_streams in
    each-Ensures {P = Drains n} close_stream tks (record s { unix_streams = streams })
      (close_stream-Drains n) h

module _ (requests : Format Request) (responses : Format Response) where
  serve_unix_stream-Drains :
      (n : ℕ) (ev : Event) (stream : UnixStream) (s : Server)
      → Drains n s
      → Ensures (Drains n) (serve_unix_stream requests responses ev stream s)
  unfolding serve_unix_stream
  serve_unix_stream-Drains n ev stream s h = ground arith

  serve_known-Drains :
      (n : ℕ) (ev : Event) (s : Server)
      → Drains n s
      → Ensures (Drains n) (serve_known requests responses ev s)
  unfolding serve_known
  serve_known-Drains n ev s h = elim (Option-cases (get_mut s.unix_streams ev.token)) [
    | inl e ↦ rw (e, serve_known) tt
    | inr (stream, e) ↦ rw (e, serve_known) (serve_unix_stream-Drains n ev stream s h)
  ]

  lookup-idle : (tk : ℕ) (s : Server) → s.reading_streams ≡ [] → lookup tk s.reading_streams ≡ none
  lookup-idle tk s e = ap (lookup tk) e

  serve_client-Drains :
      (t : Turn) (n : ℕ) (ev : Event) (s : Server)
      → Drains n s
      → Ensures (Drains n) (serve_client requests responses t ev s)
  unfolding serve_client
  serve_client-Drains t n ev s h =
      rw (lookup-idle ev.token s h.1, serve_client) (serve_known-Drains n ev s h)

  serve_listener-Drains :
      (cfg : Config) (t : Turn) (n : ℕ) (accepted : Option ℕ) (s : Server)
      → accepted ≡ none
      → Drains n s
      → Ensures (Drains n) (serve_listener cfg t accepted s)
  unfolding serve_listener
  serve_listener-Drains cfg t n none s e h = h
  serve_listener-Drains cfg t n (some stream) s e h = ground arith

  handle_event-Drains :
      (cfg : Config) (t : Turn) (n : ℕ) (ev : Event) (s : Server)
      → ev.accepted ≡ none
      → Drains n s
      → Ensures (Drains n) (handle_event requests responses cfg t ev s)
  unfolding handle_event
  handle_event-Drains cfg t n ev s e h = elim (Bool-cases (ev.token == server_token)) [
    | inl e' ↦ rw e' (serve_listener-Drains cfg t n ev.accepted s e h)
    | inr e' ↦ rw e' (serve_client-Drains t n ev s h)
  ]

  each-Drains :
      (cfg : Config) (t : Turn) (n : ℕ) (evs : List Event) (s : Server)
      → All (λ ev. ev.accepted ≡ none) evs
      → Drains n s
      → Ensures (Drains n) (each (handle_event requests responses cfg t) evs s)
  each-Drains cfg t n [] s es h = h
  each-Drains cfg t n (ev ∷ evs) s es h =
      >>=-Ensures {P = Drains n} (handle_event requests responses cfg t ev s)
        (each (handle_event requests responses cfg t) evs) (handle_event-Drains cfg t n ev s es.0 h)
        (λ s' h'. each-Drains cfg t n evs s' es.1 h')

  handle_events-Drains :
      (cfg : Config) (t : Turn) (n : ℕ) (s : Server)
      → All (λ ev. ev.accepted ≡ none) t.events
      → Drains n s
      → Ensures (Drains n) (handle_events requests responses cfg t s)
  unfolding handle_events
  handle_events-Drains cfg t n s es h =
      each-Drains cfg t n t.events (check_running t s) es (check_running-Drains n t s h)

  -- Once the server shuts down, and as long as the listener, which is deregistered then, gives no
  -- stream, a round of the loop that does not fail reads from no stream, stays in this mode, and
  -- leaves no more streams with the workers than there were before it.
  pub run_turn-Drains :
      (cfg : Config) (t : Turn) (s : Server)
      → s.run_shutdown ≡ true
      → s.reading_streams ≡ []
      → All (λ ev. ev.accepted ≡ none) t.events
      → Ensures (Drains (length s.processing_streams)) (run_turn requests responses cfg t s)
  unfolding run_turn
  run_turn-Drains cfg t s down idle es =
      let n = length s.processing_streams in
      let kept = check_exit cfg t s >>= take_kept t in
      >>=-Ensures {P = Drains n} (kept >>= take_closed) (handle_events requests responses cfg t)
        (>>=-Ensures {P = Drains n} kept take_closed
          (>>=-Ensures {P = Drains n} (check_exit cfg t s) (take_kept t)
            (check_exit-Drains cfg t n s (down, idle, le_refl n)) (take_kept-Drains n t))
          (take_closed-Drains n))
        (λ s' h. handle_events-Drains cfg t n s' es h)

  first_event-unknown :
      (cfg : Config) (t : Turn) (s : Server) (ev : Event)
      → ev.token ≢ server_token
      → s.reading_streams ≡ []
      → get_mut s.unix_streams ev.token ≡ none
      → handle_event requests responses cfg t ev s ≡ failed unknown_token
  unfolding handle_event serve_client serve_known
  first_event-unknown cfg t s ev other idle unknown = elim (Bool-cases (ev.token == server_token)) [
    | inl e ↦ ground arith
    | inr e ↦ rw e (rw (lookup-idle ev.token s idle, serve_client) (rw (unknown, serve_known) refl))
  ]

  -- A signal that comes together with what an idle client has sent ends the server with an error
  -- and not with a shutdown, whoever was being served: the stream that the event is about has been
  -- shut and taken out of the map by the time the event is looked at, and its token is unknown.
  pub handle_events-unknown_token :
      (cfg : Config) (t : Turn) (s : Server) (ev : Event) (evs : List Event)
      → t.running ≡ false
      → s.run_shutdown ≡ false
      → t.events ≡ ev ∷ evs
      → ev.token ≢ server_token
      → get_mut s.unix_streams ev.token ≡ none
      → handle_events requests responses cfg t s ≡ failed unknown_token
  unfolding handle_events check_running shutdown
  handle_events-unknown_token cfg t s ev evs signal running events other unknown =
      let first : handle_event requests responses cfg t ev (check_running t s)
          ≡ failed unknown_token =
        first_event-unknown cfg t (check_running t s) ev other (ground arith) (ground arith) in
      rw events (rw first refl)
