-- ===== src/Server/Owed.antt =====
-- What the workers owe the server: an answer to each request that they have, and to no other. It is
-- what the `unwrap`s of the loop rely on.
use casket.Base.{
  ℕ, ◌+◌, ◌≤◌, ◌<◌, ◌≡◌, ◌≢◌, refl, ap, ◌∙◌, inl, inr, Option-cases, Bool-cases, none, some, List,
  [], ◌∷◌, arith, length, ◌==◌, if◌then◌else◌,
}
use casket.Base.Map.{Map, lookup, insert, remove, lookup-insert, lookup-remove_ne}
use casket.Config.{Config}
use casket.Server.Streams.Waiting.{
  kept_tokens, closed_tokens, count, waiting, next_stream_tks_lem, next_stream_close_tks_lem,
  reregister_all_lem,
}
use casket.Server.Streams.{UnixStream, next_stream_tks, next_stream_close_tks, reregister_all}
use casket.Server.{
  Server, Turn, Outcome, next, stopped, failed, panicked, ◌>>=◌, each, keep_stream, close_stream,
  check_exit, take_kept, take_closed, check_running, shutdown,
}

-- The step does not panic, and `P` holds where the loop goes on.
abbrev pub Goes : (Server → Type 0) → Outcome → Type 0
Goes P (next s) = P s
Goes P (stopped s) = Unit
Goes P (failed e) = Unit
Goes P panicked = ⊥

pub >>=-Goes :
    (P Q : Server → Type 0) (o : Outcome) (f : Server → Outcome)
    → Goes P o
    → ((s : Server) → o ≡ next s → P s → Goes Q (f s))
    → Goes Q (o >>= f)
>>=-Goes P Q (next s) f h step = step s refl h
>>=-Goes P Q (stopped s) f h step = tt
>>=-Goes P Q (failed e) f h step = tt
>>=-Goes P Q panicked f h step = h

-- Whether the server has a stream of the token with a worker.
abbrev pub owed_in : ℕ → Map ℕ → ℕ
owed_in k m = elim (lookup k m) [ none ↦ 0 | some _ ↦ 1 ]

abbrev pub owed : ℕ → Server → ℕ
owed k s = owed_in k s.processing_streams

owed_in-remove :
    (tk k n : ℕ) (m : Map ℕ)
    → (if tk == k then 1 else 0) + n ≤ owed_in k m
    → n ≤ owed_in k (remove tk m)
owed_in-remove tk k n m h = elim (Bool-cases (tk == k)) [
  | inl e ↦ ground (arith, h, e)
  | inr e ↦
      let other : k ≢ tk = ground arith in
      rw (lookup-remove_ne tk k m other, owed_in) (ground (arith, h, e))
]

pub owed_in-insert :
    (tk k v n : ℕ) (m : Map ℕ)
    → n ≤ owed_in k m
    → (tk ≡ k → n ≡ 0)
    → n + (if tk == k then 1 else 0) ≤ owed_in k (insert tk v m)
owed_in-insert tk k v n m h fresh = elim (Bool-cases (tk == k)) [
  | inl e ↦
      let same : tk ≡ k = ground (arith, e) in
      rw (lookup-insert tk k v m, owed_in) (rw e (omega (arith, fresh same)))
  | inr e ↦ rw (lookup-insert tk k v m, owed_in) (rw e (omega (arith, h)))
]

-- `asked k` is how often the token `k` has been in a request for a worker and not in an answer since.
-- The streams that have been asked about, and those whose answers wait, are with the workers, each
-- once, and there is a worker.
pub record IsOwed (asked : ℕ → ℕ) (s : Server) : Type 0 where
  pub has_worker : 0 < length s.unix_streams
  pub owes : (k : ℕ) → waiting k s.unix_streams + asked k ≤ owed k s

-- The sockets are `streams`, and beside them `rest` answers are owed for each token.
abbrev Leaves : List UnixStream → (ℕ → ℕ) → Server → Type 0
Leaves streams rest s = (s.unix_streams ≡ streams) × ((k : ℕ) → rest k ≤ owed k s)

abbrev pub one : ℕ → ℕ → ℕ
one tk k = if tk == k then 1 else 0

owed-some :
    (tk : ℕ) (s : Server) (rest : ℕ → ℕ)
    → ((k : ℕ) → one tk k + rest k ≤ owed k s)
    → lookup tk s.processing_streams ≢ none
owed-some tk s rest h e = ground (arith, h tk, e)

keep_stream-Leaves :
    (t : Turn) (streams : List UnixStream) (rest : ℕ → ℕ) (tk : ℕ) (s : Server)
    → Leaves streams (λ k. one tk k + rest k) s
    → Goes (Leaves streams rest) (keep_stream t tk s)
unfolding keep_stream
keep_stream-Leaves t streams rest tk s (same, h) =
    elim (Option-cases (lookup tk s.processing_streams)) [
      | inl e ↦ absurd (owed-some tk s rest h e)
      | inr (stream, e) ↦
          let left : (k : ℕ) → rest k ≤ owed_in k (remove tk s.processing_streams) =
            λ k. owed_in-remove tk k (rest k) s.processing_streams (h k) in
          ground (arith, same, left)
    ]

close_stream-Leaves :
    (streams : List UnixStream) (rest : ℕ → ℕ) (tk : ℕ) (s : Server)
    → Leaves streams (λ k. one tk k + rest k) s
    → Goes (Leaves streams rest) (close_stream tk s)
unfolding close_stream
close_stream-Leaves streams rest tk s (same, h) =
    elim (Option-cases (lookup tk s.processing_streams)) [
      | inl e ↦ absurd (owed-some tk s rest h e)
      | inr (stream, e) ↦
          rw (e, close_stream) (same, λ k. owed_in-remove tk k (rest k) s.processing_streams (h k))
    ]

each-Leaves :
    (f : ℕ → Server → Outcome) (streams : List UnixStream) (rest : ℕ → ℕ)
    → ((rest : ℕ → ℕ) (tk : ℕ) (s : Server)
        → Leaves streams (λ k. one tk k + rest k) s
        → Goes (Leaves streams rest) (f tk s))
    → (tks : List ℕ) (s : Server) → Leaves streams (λ k. count k tks + rest k) s
    → Goes (Leaves streams rest) (each f tks s)
each-Leaves f streams rest step [] s (same, h) = (same, λ k. omega (arith, h k))
each-Leaves f streams rest step (tk ∷ tks) s (same, h) =
    >>=-Goes (Leaves streams (λ k. count k tks + rest k)) (Leaves streams rest) (f tk s)
      (each f tks) (step (λ k. count k tks + rest k) tk s (same, λ k. omega (arith, h k)))
      (λ s' _ h'. each-Leaves f streams rest step tks s' h')

check_exit-Goes :
    (asked : ℕ → ℕ) (cfg : Config) (t : Turn) (s : Server)
    → IsOwed asked s
    → Goes (IsOwed asked) (check_exit cfg t s)
unfolding check_exit
check_exit-Goes asked cfg t s h = ground arith

-- No stream that stays open waits for being read again.
abbrev HasNoneKept : (ℕ → ℕ) → Server → Type 0
HasNoneKept asked s = IsOwed asked s × (kept_tokens s.unix_streams ≡ [])

abbrev pub HasNoneWaiting : (ℕ → ℕ) → Server → Type 0
HasNoneWaiting asked s =
    IsOwed asked s × (kept_tokens s.unix_streams ≡ []) × (closed_tokens s.unix_streams ≡ [])

Goes-mono : {P Q : Server → Type 0} (o : Outcome) → Goes P o → ((s : Server) → P s → Q s) → Goes Q o
Goes-mono (next s) h imp = imp s h
Goes-mono (stopped s) h imp = tt
Goes-mono (failed e) h imp = tt
Goes-mono panicked h imp = h

Leaves-HasNoneKept :
    (asked : ℕ → ℕ) (streams : List UnixStream) (s : Server)
    → 0 < length streams
    → kept_tokens streams ≡ []
    → Leaves streams (λ k. count k (closed_tokens streams) + asked k) s
    → HasNoneKept asked s
Leaves-HasNoneKept asked streams s h nil (same, left) = (
  record { has_worker = rw same h; owes = λ k. rw same (omega (arith, left k, ap (count k) nil)) },
  ap kept_tokens same ∙ nil,
)

take_kept-Goes :
    (asked : ℕ → ℕ) (t : Turn) (s : Server)
    → IsOwed asked s
    → Goes (HasNoneKept asked) (take_kept t s)
unfolding take_kept
take_kept-Goes asked t s h =
    let registered = (reregister_all t.unix_registry s.unix_streams).0 in
    let (kept, closed, len) = reregister_all_lem t.unix_registry s.unix_streams in
    let (got, nil, closed', len') = next_stream_tks_lem registered in
    let streams = (next_stream_tks registered).0 in
    let tks = (next_stream_tks registered).1 in
    let rest : ℕ → ℕ = λ k. count k (closed_tokens streams) + asked k in
    Goes-mono {P = Leaves streams rest} {Q = HasNoneKept asked}
      (each (keep_stream t) tks (record s { unix_streams = streams }))
      (each-Leaves (keep_stream t) streams rest (keep_stream-Leaves t streams) tks
        (record s { unix_streams = streams })
        (
          refl,
          λ k. omega (
            arith,
            h.owes k,
            ap (count k) got,
            ap (count k) kept,
            ap (count k) closed,
            ap (count k) closed',
          ),
        ))
      (λ s' left.
        Leaves-HasNoneKept asked streams s' (omega (arith, len, len', h.has_worker)) nil left)

Leaves-HasNoneWaiting :
    (asked : ℕ → ℕ) (streams : List UnixStream) (s : Server)
    → 0 < length streams
    → kept_tokens streams ≡ []
    → closed_tokens streams ≡ []
    → Leaves streams asked s
    → HasNoneWaiting asked s
Leaves-HasNoneWaiting asked streams s h nil nil' (same, left) = (
  record {
    has_worker = rw same h;
    owes = λ k. rw same (omega (arith, left k, ap (count k) nil, ap (count k) nil'));
  },
  ap kept_tokens same ∙ nil,
  ap closed_tokens same ∙ nil',
)

take_closed-Goes :
    (asked : ℕ → ℕ) (s : Server) → HasNoneKept asked s → Goes (HasNoneWaiting asked) (take_closed s)
unfolding take_closed
take_closed-Goes asked s (h, none_kept) =
    let (got, nil, kept, len) = next_stream_close_tks_lem s.unix_streams in
    let streams = (next_stream_close_tks s.unix_streams).0 in
    let tks = (next_stream_close_tks s.unix_streams).1 in
    Goes-mono {P = Leaves streams asked} {Q = HasNoneWaiting asked}
      (each close_stream tks (record s { unix_streams = streams }))
      (each-Leaves close_stream streams asked (close_stream-Leaves streams) tks
        (record s { unix_streams = streams })
        (refl, λ k. omega (arith, h.owes k, ap (count k) got)))
      (λ s' left.
        Leaves-HasNoneWaiting asked streams s' (omega (arith, len, h.has_worker)) (kept ∙ none_kept)
          nil left)

pub check_running-IsOwed :
    (asked : ℕ → ℕ) (t : Turn) (s : Server) → IsOwed asked s → IsOwed asked (check_running t s)
unfolding check_running shutdown
check_running-IsOwed asked t s h = ground arith

-- What comes before the events of a round: no panic, and no answer waits behind it.
unfoldable pub before_events : Config → Turn → Server → Outcome
before_events cfg t s = check_exit cfg t s >>= take_kept t >>= take_closed

pub before_events-Goes :
    (asked : ℕ → ℕ) (cfg : Config) (t : Turn) (s : Server)
    → IsOwed asked s
    → Goes (HasNoneWaiting asked) (before_events cfg t s)
unfolding before_events
before_events-Goes asked cfg t s h =
    >>=-Goes (HasNoneKept asked) (HasNoneWaiting asked) (check_exit cfg t s >>= take_kept t)
      take_closed
      (>>=-Goes (IsOwed asked) (HasNoneKept asked) (check_exit cfg t s) (take_kept t)
        (check_exit-Goes asked cfg t s h) (λ s' _ h'. take_kept-Goes asked t s' h'))
      (λ s' _ h'. take_closed-Goes asked s' h')
