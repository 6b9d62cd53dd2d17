-- ===== src/Server/Answered.antt =====
-- The events of a round, where the workers answer what they were asked.
use casket.Base.{
  ℕ, ◌+◌, ◌-◌, ◌≤◌, ◌≡◌, refl, sym, leb, length, ap, ◌∙◌, inl, inr, Option-cases, Bool-cases,
  Result-cases, Bool, Option, none, some, List, [], ◌∷◌, ◌++◌, map, map-append, arith, ◌==◌,
  if◌then◌else◌, Bytes, Result,
}
use casket.Base.Map.{lookup}
use casket.Config.{Config}
use casket.Msgs.ServerBuffer.Read.{kept, closed}
use casket.Msgs.ServerBuffer.{keeps}
use casket.Msgs.ServerBuffer
use casket.Msgs.Wire.{Request, Response, Format}
use casket.Server.Owed.{Goes, >>=-Goes, IsOwed, owed_in-insert, owed_in}
use casket.Server.Streams.Sending.{read_if_keeps, write_stream-count}
use casket.Server.Streams.Drain.{tokens}
use casket.Server.Streams.Waiting.{
  count, count-append, waiting, queued, queued-put_mut-le, to_send_tokens, waiting-put_mut,
  length-put_mut, msg_send_tcp_stream_lem,
}
use casket.Server.Streams.{UnixStream, get_mut, write_stream}
use casket.Server.{
  Server, Event, Turn, next, each, accept_stream, hand_over, read_if, serve_listener,
  serve_unix_stream, serve_known, serve_client, handle_event, server_token,
}

abbrev pub response_tokens : List Response → List ℕ
response_tokens = map (λ m. m.token)

count-responses :
    (k : ℕ) (ms : List Response)
    → count k (tokens (kept ms)) + count k (tokens (closed ms)) ≡ count k (response_tokens ms)
count-responses k [] = omega arith
count-responses k (m ∷ ms) = elim (Bool-cases (keeps m)) [
  | inl e ↦ rw e (omega (arith, count-responses k ms))
  | inr e ↦ rw e (omega (arith, count-responses k ms))
]

-- The socket `u` becomes `u'`: the responses `got` have come into its queues.
abbrev pub Takes : UnixStream → List Response → UnixStream → Type 0
Takes u got u' =
    (u'.msg_buffer.stream_tks ≡ u.msg_buffer.stream_tks ++ kept got)
    × (u'.msg_buffer.stream_close_tks ≡ u.msg_buffer.stream_close_tks ++ closed got)

-- The answers of `got` are to requests that have been asked about, and one to each.
abbrev pub AreAsked : (ℕ → ℕ) → List Response → Type 0
AreAsked asked got = (k : ℕ) → count k (response_tokens got) ≤ asked k

-- How often each token has been asked about and not been answered, behind a step that has taken the
-- sockets of `s` to those of `s'`: the requests that have come into their queues to be sent count, and
-- the answers that have come in.
abbrev pub after : (ℕ → ℕ) → Server → Server → ℕ → ℕ
after asked s s' k =
    asked k
    + (queued k s'.unix_streams - queued k s.unix_streams)
    - (waiting k s'.unix_streams - waiting k s.unix_streams)

Takes-count :
    (u u' : UnixStream) (got : List Response) (k : ℕ)
    → Takes u got u'
    → count k (tokens u'.msg_buffer.stream_tks) + count k (tokens u'.msg_buffer.stream_close_tks)
      ≡ count k (tokens u.msg_buffer.stream_tks)
        + count k (tokens u.msg_buffer.stream_close_tks)
        + count k (response_tokens got)
Takes-count u u' got k (keep, shut) =
    rw (keep, shut)
      (omega (
        arith,
        ap (count k) (map-append (λ e. e.0) u.msg_buffer.stream_tks (kept got)),
        ap (count k) (map-append (λ e. e.0) u.msg_buffer.stream_close_tks (closed got)),
        count-append k (tokens u.msg_buffer.stream_tks) (tokens (kept got)),
        count-append k (tokens u.msg_buffer.stream_close_tks) (tokens (closed got)),
        count-responses k got,
      ))

-- What a worker's socket hands over in the event is taken in, and has been asked about.
abbrev pub Answers : Format Response → (ℕ → ℕ) → Event → Server → Type 0
Answers responses asked ev s =
    (u : UnixStream)
    → get_mut s.unix_streams ev.token ≡ some u
    → (got : List Response) × (u' : UnixStream) × (read_if responses ev u ≡ some u')
      × Takes u got u'
      × AreAsked asked got

-- If the event is a client's whose stream is handed over, its token is not asked about already, and
-- no answer about it waits: the tokens have not come round.
abbrev pub IsFresh : (ℕ → ℕ) → Event → Server → Type 0
IsFresh asked ev s =
    (stream : ℕ)
    → lookup ev.token s.reading_streams ≡ some stream
    → waiting ev.token s.unix_streams + asked ev.token ≡ 0

-- A step that leaves the sockets, and the streams with the workers, as they are.
same-IsOwed :
    (asked : ℕ → ℕ) (s s' : Server)
    → s'.unix_streams ≡ s.unix_streams
    → s'.processing_streams ≡ s.processing_streams
    → IsOwed asked s
    → IsOwed (after asked s s') s'
same-IsOwed asked s s' streams processing h = record {
  has_worker = rw streams h.has_worker;
  owes = λ k.
      omega
        (arith, h.owes k, ap (waiting k) streams, ap (queued k) streams, ap (owed_in k) processing);
}

module _ (requests : Format Request) (responses : Format Response) where
  write_stream-Takes :
      (u : UnixStream) (room : ℕ) (answer : Result Bytes ℕ) (writable : Bool)
      → let u' = if writable then (write_stream requests u room answer).0 else u in
        (u'.msg_buffer.stream_tks ≡ u.msg_buffer.stream_tks)
        × (u'.msg_buffer.stream_close_tks ≡ u.msg_buffer.stream_close_tks)
  unfolding write_stream ServerBuffer.write_unix_stream
  write_stream-Takes u room answer writable = ground arith

  served-count :
      (ev : Event) (u u' : UnixStream) (k : ℕ)
      → read_if responses ev u ≡ some u'
      → let u'' = if ev.writable then (write_stream requests u' ev.room ev.written).0 else u' in
        count k (to_send_tokens u'') ≤ count k (to_send_tokens u)
  served-count ev u u' k e =
      let kept = ap (count k) (read_if_keeps responses ev u u' e) in
      let sent = write_stream-count requests k u' ev.room ev.written in
      elim (Bool-cases ev.writable) [
        | inl able ↦ rw able (omega (arith, kept, sent))
        | inr unable ↦ rw unable (omega (arith, kept))
      ]

  -- Of each event in turn, and `Then` behind them all.
  unfoldable pub AllAnswer :
      Config → Turn → ((ℕ → ℕ) → Server → Type 0) → (ℕ → ℕ) → List Event → Server → Type 0
  AllAnswer cfg t Then asked [] s = Then asked s
  AllAnswer cfg t Then asked (ev ∷ evs) s =
      (Answers responses asked ev s × IsFresh asked ev s)
      × ((s' : Server)
          → handle_event requests responses cfg t ev s ≡ next s'
          → AllAnswer cfg t Then (after asked s s') evs s')

  accept_stream-IsOwed :
      (asked : ℕ → ℕ) (cfg : Config) (t : Turn) (stream : ℕ) (s : Server)
      → IsOwed asked s
      → Goes (λ s'. IsOwed (after asked s s') s') (accept_stream cfg t stream s)
  unfolding accept_stream
  accept_stream-IsOwed asked cfg t stream s h =
      elim (Bool-cases
        (leb cfg.max_conns (length s.reading_streams + length s.processing_streams))) [
          | inl full ↦ rw (full, accept_stream) (same-IsOwed asked s _ refl refl h)
          | inr room ↦ elim (Result-cases (t.register s.client_stream_count)) [
            | inl (_, e) ↦ rw (room, accept_stream) (rw e (same-IsOwed asked s _ refl refl h))
            | inr (_, e) ↦ rw (room, accept_stream) (rw e (same-IsOwed asked s _ refl refl h))
          ]
        ]

  serve_unix_stream-IsOwed :
      (asked : ℕ → ℕ) (ev : Event) (u : UnixStream) (s : Server)
      → get_mut s.unix_streams ev.token ≡ some u
      → IsOwed asked s
      → Answers responses asked ev s
      → Goes (λ s'. IsOwed (after asked s s') s') (serve_unix_stream requests responses ev u s)
  unfolding serve_unix_stream
  serve_unix_stream-IsOwed asked ev u s found h answers =
      let (got, u', e, (keep, shut), are_asked) = answers u found in
      let (keep', shut') = write_stream-Takes u' ev.room ev.written ev.writable in
      let u'' = if ev.writable then (write_stream requests u' ev.room ev.written).0 else u' in
      rw (e, serve_unix_stream)
        (record {
          has_worker = omega (arith, length-put_mut s.unix_streams ev.token u'', h.has_worker);
          owes = λ k. omega (
            arith,
            h.owes k,
            are_asked k,
            waiting-put_mut s.unix_streams ev.token u u'' k (count k (response_tokens got)) found
                (Takes-count u u'' got k (keep' ∙ keep, shut' ∙ shut)),
            queued-put_mut-le s.unix_streams ev.token u u'' k found (served-count ev u u' k e),
          );
        })

  serve_known-IsOwed :
      (asked : ℕ → ℕ) (ev : Event) (s : Server)
      → IsOwed asked s
      → Answers responses asked ev s
      → Goes (λ s'. IsOwed (after asked s s') s') (serve_known requests responses ev s)
  unfolding serve_known
  serve_known-IsOwed asked ev s h answers = elim (Option-cases (get_mut s.unix_streams ev.token)) [
    | inl e ↦ rw (e, serve_known) tt
    | inr (u, e) ↦ rw (e, serve_known) (serve_unix_stream-IsOwed asked ev u s e h answers)
  ]

  hand_over-IsOwed :
      (asked : ℕ → ℕ) (t : Turn) (tk stream : ℕ) (s : Server)
      → IsOwed asked s
      → waiting tk s.unix_streams + asked tk ≡ 0
      → Goes (λ s'. IsOwed (after asked s s') s') (hand_over t tk stream s)
  unfolding hand_over
  hand_over-IsOwed asked t tk stream s h fresh =
      let (streams, sent, kept, closed, len, requested) =
        msg_send_tcp_stream_lem s.unix_streams tk stream h.has_worker in
      let owed_more = λ (k : ℕ).
        owed_in-insert tk k stream (waiting k s.unix_streams + asked k) s.processing_streams
          (h.owes k) (λ same. ap (λ k. waiting k s.unix_streams + asked k) (sym same) ∙ fresh) in
      elim (Result-cases (t.deregister tk)) [
        | inl (_, e) ↦
            rw (e, hand_over)
              (rw sent (record {
                has_worker = omega (arith, len, h.has_worker);
                owes = λ k.
                    omega (arith, owed_more k, requested k, ap (count k) kept, ap (count k) closed);
              }))
        | inr (_, e) ↦ rw (e, hand_over) (same-IsOwed asked s _ refl refl h)
      ]

  serve_client-IsOwed :
      (asked : ℕ → ℕ) (t : Turn) (ev : Event) (s : Server)
      → IsOwed asked s
      → Answers responses asked ev s
      → IsFresh asked ev s
      → Goes (λ s'. IsOwed (after asked s s') s') (serve_client requests responses t ev s)
  unfolding serve_client
  serve_client-IsOwed asked t ev s h answers fresh =
      elim (Option-cases (lookup ev.token s.reading_streams)) [
        | inl e ↦ rw (e, serve_client) (serve_known-IsOwed asked ev s h answers)
        | inr (stream, e) ↦
            rw (e, serve_client) (hand_over-IsOwed asked t ev.token stream s h (fresh stream e))
      ]

  serve_listener-IsOwed :
      (asked : ℕ → ℕ) (cfg : Config) (t : Turn) (accepted : Option ℕ) (s : Server)
      → IsOwed asked s
      → Goes (λ s'. IsOwed (after asked s s') s') (serve_listener cfg t accepted s)
  unfolding serve_listener
  serve_listener-IsOwed asked cfg t none s h = same-IsOwed asked s s refl refl h
  serve_listener-IsOwed asked cfg t (some stream) s h = accept_stream-IsOwed asked cfg t stream s h

  handle_event-IsOwed :
      (asked : ℕ → ℕ) (cfg : Config) (t : Turn) (ev : Event) (s : Server)
      → IsOwed asked s
      → Answers responses asked ev s
      → IsFresh asked ev s
      → Goes (λ s'. IsOwed (after asked s s') s') (handle_event requests responses cfg t ev s)
  unfolding handle_event
  handle_event-IsOwed asked cfg t ev s h answers fresh =
      elim (Bool-cases (ev.token == server_token)) [
        | inl e ↦ rw e (serve_listener-IsOwed asked cfg t ev.accepted s h)
        | inr e ↦ rw e (serve_client-IsOwed asked t ev s h answers fresh)
      ]

  -- What is asked about behind the events is owed, and `Then` holds of it.
  abbrev pub Carried : ((ℕ → ℕ) → Server → Type 0) → Server → Type 0
  Carried Then s = (asked : ℕ → ℕ) × IsOwed asked s × Then asked s

  pub events-IsOwed :
      (Then : (ℕ → ℕ) → Server → Type 0) (asked : ℕ → ℕ) (cfg : Config) (t : Turn)
      (evs : List Event) (s : Server)
      → IsOwed asked s
      → AllAnswer cfg t Then asked evs s
      → Goes (Carried Then) (each (handle_event requests responses cfg t) evs s)
  unfolding AllAnswer
  events-IsOwed Then asked cfg t [] s h all = (asked, h, all)
  events-IsOwed Then asked cfg t (ev ∷ evs) s h ((answers, fresh), all) =
      >>=-Goes (λ s'. IsOwed (after asked s s') s') (Carried Then)
        (handle_event requests responses cfg t ev s)
        (each (handle_event requests responses cfg t) evs)
        (handle_event-IsOwed asked cfg t ev s h answers fresh)
        (λ s' e h'. events-IsOwed Then (after asked s s') cfg t evs s' h' (all s' e))
