-- ===== src/Server/Streams/Waiting.antt =====
-- The tokens that the workers have given back and that wait in the sockets' queues.
use casket.Base.{
  ℕ, zero, suc, ◌+◌, ◌-◌, ◌<◌, ◌≤◌, map, map-append, ◌≡◌, refl, ◌∙◌, ap, some, inl, inr, List, [],
  ◌∷◌, ◌++◌, arith, length, get_elem?, set, length-set, usize_mod, Bytes, Result, Bool-cases,
  if◌then◌else◌, ◌==◌, sub_usize,
}
use casket.Msgs.Wire.{Request}
use casket.Msgs.ServerBuffer
use casket.Server.Streams.Drain.{
  tokens, drain_tks_step, drain_tks_stop, drain_close_tks_step, drain_close_tks_stop,
  next_stream_tk_nil, next_stream_tk_cons, next_stream_close_tk_nil, next_stream_close_tk_cons,
}
use casket.Server.Streams.Interest.{settle_lem}
use casket.Server.Streams.Load.{least_loaded-IsLeast, msg_send_tcp_stream_at}
use casket.Server.Streams.{
  UnixStream, Call, drain_tks, drain_close_tks, next_stream_tks, next_stream_close_tks, get_mut,
  put_mut, run_calls, guarded_calls, poll_read, poll_write, msg_send_tcp_stream, send_to_stream,
  reregister_stream, reregister_all, least_loaded,
}

abbrev pub kept_tokens : List UnixStream → List ℕ
kept_tokens [] = []
kept_tokens (s ∷ streams) = tokens s.msg_buffer.stream_tks ++ kept_tokens streams

abbrev pub closed_tokens : List UnixStream → List ℕ
closed_tokens [] = []
closed_tokens (s ∷ streams) = tokens s.msg_buffer.stream_close_tks ++ closed_tokens streams

abbrev pub count : ℕ → List ℕ → ℕ
count k [] = 0
count k (j ∷ js) = (if j == k then 1 else 0) + count k js

pub count-append : (k : ℕ) (is js : List ℕ) → count k (is ++ js) ≡ count k is + count k js
count-append k [] js = omega arith
count-append k (i ∷ is) js = omega (arith, count-append k is js)

-- How often a token waits.
abbrev pub waiting : ℕ → List UnixStream → ℕ
waiting k streams = count k (kept_tokens streams) + count k (closed_tokens streams)

abbrev pub to_send_tokens : UnixStream → List ℕ
to_send_tokens s = map (λ e. e.0.token) s.msg_buffer.to_send

-- How often a token is in a request that waits to be sent.
abbrev pub queued : ℕ → List UnixStream → ℕ
queued k [] = 0
queued k (s ∷ streams) = count k (to_send_tokens s) + queued k streams

abbrev pub IsSame : UnixStream → UnixStream → Type 0
IsSame s s' =
    (s'.msg_buffer.stream_tks ≡ s.msg_buffer.stream_tks)
    × (s'.msg_buffer.stream_close_tks ≡ s.msg_buffer.stream_close_tks)

drain_tks_lem :
    (fuel : ℕ) (s : UnixStream) (tks : List (ℕ × ℕ))
    → s.msg_buffer.stream_tks ≡ tks
    → length tks < fuel
    → let (s', got) = drain_tks fuel s in
      (got ≡ tokens tks)
      × (s'.msg_buffer.stream_tks ≡ [])
      × (s'.msg_buffer.stream_close_tks ≡ s.msg_buffer.stream_close_tks)
drain_tks_lem zero s tks e h = elim h [ ]
drain_tks_lem (suc fuel) s [] e h =
    rw (drain_tks_stop fuel s (next_stream_tk_nil s e)) (refl, e, refl)
drain_tks_lem (suc fuel) s ((tk, fd) ∷ tks) e h =
    let s' : UnixStream = record s {
      msg_buffer = record (s.msg_buffer) { stream_tks = tks };
      num_reqs = sub_usize s.num_reqs 1;
    } in
    let (got, none_left, same) = drain_tks_lem fuel s' tks refl (omega arith) in
    rw (drain_tks_step fuel tk s s' (next_stream_tk_cons s tk fd tks e))
      (ap (◌∷◌ tk) got, none_left, same)

drain_close_tks_lem :
    (fuel : ℕ) (s : UnixStream) (tks : List (ℕ × ℕ))
    → s.msg_buffer.stream_close_tks ≡ tks
    → length tks < fuel
    → let (s', got) = drain_close_tks fuel s in
      (got ≡ tokens tks)
      × (s'.msg_buffer.stream_close_tks ≡ [])
      × (s'.msg_buffer.stream_tks ≡ s.msg_buffer.stream_tks)
drain_close_tks_lem zero s tks e h = elim h [ ]
drain_close_tks_lem (suc fuel) s [] e h =
    rw (drain_close_tks_stop fuel s (next_stream_close_tk_nil s e)) (refl, e, refl)
drain_close_tks_lem (suc fuel) s ((tk, fd) ∷ tks) e h =
    let s' : UnixStream = record s {
      msg_buffer = record (s.msg_buffer) { stream_close_tks = tks };
      num_reqs = sub_usize s.num_reqs 1;
    } in
    let (got, none_left, same) = drain_close_tks_lem fuel s' tks refl (omega arith) in
    rw (drain_close_tks_step fuel tk s s' (next_stream_close_tk_cons s tk fd tks e))
      (ap (◌∷◌ tk) got, none_left, same)

pub next_stream_tks_lem :
    (streams : List UnixStream)
    → let (streams', got) = next_stream_tks streams in
      (got ≡ kept_tokens streams)
      × (kept_tokens streams' ≡ [])
      × (closed_tokens streams' ≡ closed_tokens streams)
      × (length streams' ≡ length streams)
unfolding next_stream_tks
next_stream_tks_lem [] = (refl, refl, refl, refl)
next_stream_tks_lem (s ∷ streams) =
    let (got, nil, same) =
      drain_tks_lem (suc (length s.msg_buffer.stream_tks)) s s.msg_buffer.stream_tks refl
        (omega arith) in
    let (got', nil', same', len) = next_stream_tks_lem streams in
    (
      λ i. got i ++ got' i,
      λ i. tokens (nil i) ++ nil' i,
      λ i. tokens (same i) ++ same' i,
      ap suc len,
    )

pub next_stream_close_tks_lem :
    (streams : List UnixStream)
    → let (streams', got) = next_stream_close_tks streams in
      (got ≡ closed_tokens streams)
      × (closed_tokens streams' ≡ [])
      × (kept_tokens streams' ≡ kept_tokens streams)
      × (length streams' ≡ length streams)
unfolding next_stream_close_tks
next_stream_close_tks_lem [] = (refl, refl, refl, refl)
next_stream_close_tks_lem (s ∷ streams) =
    let (got, nil, same) =
      drain_close_tks_lem (suc (length s.msg_buffer.stream_close_tks)) s
        s.msg_buffer.stream_close_tks refl (omega arith) in
    let (got', nil', same', len) = next_stream_close_tks_lem streams in
    (
      λ i. got i ++ got' i,
      λ i. tokens (nil i) ++ nil' i,
      λ i. tokens (same i) ++ same' i,
      ap suc len,
    )

reregister_stream_lem :
    (answer : Call → Result Bytes (Unit {0})) (s : UnixStream)
    → IsSame s (reregister_stream answer s).0
unfolding reregister_stream
reregister_stream_lem answer s =
    let calls = run_calls answer (guarded_calls s.interest (poll_read s) (poll_write s)) in
    let (_, settled) = settle_lem s calls in
    elim settled [
      | inl (_, e) ↦
          (ap (λ u. u.msg_buffer.stream_tks) e, ap (λ u. u.msg_buffer.stream_close_tks) e)
      | inr (_, _, e) ↦
          (ap (λ u. u.msg_buffer.stream_tks) e, ap (λ u. u.msg_buffer.stream_close_tks) e)
    ]

pub reregister_all_lem :
    (answer : ℕ → Call → Result Bytes (Unit {0})) (streams : List UnixStream)
    → let (streams', errors) = reregister_all answer streams in
      (kept_tokens streams' ≡ kept_tokens streams)
      × (closed_tokens streams' ≡ closed_tokens streams)
      × (length streams' ≡ length streams)
unfolding reregister_all
reregister_all_lem answer [] = (refl, refl, refl)
reregister_all_lem answer (s ∷ streams) =
    let (kept, closed) = reregister_stream_lem (answer s.token) s in
    let (kept', closed', len) = reregister_all_lem answer streams in
    (λ i. tokens (kept i) ++ kept' i, λ i. tokens (closed i) ++ closed' i, ap suc len)

set-IsSame :
    (streams : List UnixStream) (n : ℕ) (s s' : UnixStream)
    → get_elem? streams n ≡ some s
    → IsSame s s'
    → (kept_tokens (set streams n s') ≡ kept_tokens streams)
      × (closed_tokens (set streams n s') ≡ closed_tokens streams)
set-IsSame [] n s s' e same = (refl, refl)
set-IsSame (u ∷ streams) zero s s' e (kept, closed) =
    let is : s ≡ u = cc in
    (
      ap (λ l. tokens l ++ kept_tokens streams)
          (kept ∙ ap (λ (v : UnixStream). v.msg_buffer.stream_tks) is),
      ap (λ l. tokens l ++ closed_tokens streams)
          (closed ∙ ap (λ (v : UnixStream). v.msg_buffer.stream_close_tks) is),
    )
set-IsSame (u ∷ streams) (suc n) s s' e same =
    let (kept, closed) = set-IsSame streams n s s' e same in
    (
      ap (λ l. tokens u.msg_buffer.stream_tks ++ l) kept,
      ap (λ l. tokens u.msg_buffer.stream_close_tks ++ l) closed,
    )

set-queued :
    (streams : List UnixStream) (n : ℕ) (s s' : UnixStream) (k : ℕ)
    → get_elem? streams n ≡ some s
    → queued k (set streams n s') + count k (to_send_tokens s)
      ≡ queued k streams + count k (to_send_tokens s')
set-queued [] n s s' k e = cc
set-queued (u ∷ streams) zero s s' k e =
    let is : s ≡ u = cc in omega (arith, ap (λ v. count k (to_send_tokens v)) is)
set-queued (u ∷ streams) (suc n) s s' k e = omega (arith, set-queued streams n s s' k e)

-- A request is queued for a worker, and nothing else changes in the queues.
abbrev pub Sends : List UnixStream → ℕ → ℕ → Type 0
Sends streams tk fd =
    (streams' : List UnixStream) × (msg_send_tcp_stream streams tk fd ≡ some streams')
    × (kept_tokens streams' ≡ kept_tokens streams)
    × (closed_tokens streams' ≡ closed_tokens streams)
    × (length streams' ≡ length streams)
    × ((k : ℕ) → queued k streams' ≡ queued k streams + (if tk == k then 1 else 0))

abbrev added : ℕ → ℕ → Request × ℕ
added tk fd = (record { token = tk; fd = fd }, fd)

msg_send_tcp_stream-Sends :
    (streams : List UnixStream) (tk fd i : ℕ) (s : UnixStream)
    → least_loaded streams 0 0 (usize_mod - 1) ≡ i
    → get_elem? streams i ≡ some s
    → Sends streams tk fd
unfolding send_to_stream ServerBuffer.req_tcp_stream_fd
msg_send_tcp_stream-Sends streams tk fd i s e found =
    let s' = send_to_stream s tk fd in
    let (kept, closed) = set-IsSame streams i s s' found (refl, refl) in
    (
      set streams i s',
      msg_send_tcp_stream_at streams tk fd i s e found,
      kept,
      closed,
      length-set streams i s',
      λ k. omega (
        arith,
        set-queued streams i s s' k found,
        ap (count k) (map-append (λ e. e.0.token) s.msg_buffer.to_send (added tk fd ∷ [])),
        count-append k (to_send_tokens s) (tk ∷ []),
      ),
    )

-- With a worker, there is a stream to take.
pub msg_send_tcp_stream_lem :
    (streams : List UnixStream) (tk fd : ℕ) → 0 < length streams → Sends streams tk fd
msg_send_tcp_stream_lem [] tk fd h = absurd (omega arith)
msg_send_tcp_stream_lem (s₀ ∷ rest) tk fd h =
    elim (least_loaded-IsLeast (s₀ ∷ rest) 0 0 (usize_mod - 1)) [
      | inl (i, all) ↦ msg_send_tcp_stream-Sends (s₀ ∷ rest) tk fd 0 s₀ i refl
      | inr (j, s, i, found, less, all) ↦
          msg_send_tcp_stream-Sends (s₀ ∷ rest) tk fd j s (omega (arith, i)) found
    ]

pub length-put_mut :
    (streams : List UnixStream) (tk : ℕ) (s' : UnixStream)
    → length (put_mut streams tk s') ≡ length streams
unfolding put_mut
length-put_mut [] tk s' = refl
length-put_mut (u ∷ streams) tk s' = ground (arith, length-put_mut streams tk s')

pub queued-put_mut-le :
    (streams : List UnixStream) (tk : ℕ) (s s' : UnixStream) (k : ℕ)
    → get_mut streams tk ≡ some s
    → count k (to_send_tokens s') ≤ count k (to_send_tokens s)
    → queued k (put_mut streams tk s') ≤ queued k streams
unfolding put_mut get_mut
queued-put_mut-le [] tk s s' k e h = cc
queued-put_mut-le (u ∷ streams) tk s s' k e h = elim (Bool-cases (u.token == tk)) [
  | inl here ↦ let is : u ≡ s = ground (arith, e, here) in rw (here, is) (omega (arith, h))
  | inr there ↦
      let rest : get_mut streams tk ≡ some s = ground (arith, e, there) in
      rw there (omega (arith, queued-put_mut-le streams tk s s' k rest h))
]

-- The stream of `tk` takes `more` tokens into its queues, of which both orders are kept.
pub waiting-put_mut :
    (streams : List UnixStream) (tk : ℕ) (s s' : UnixStream) (k more : ℕ)
    → get_mut streams tk ≡ some s
    → count k (tokens s'.msg_buffer.stream_tks) + count k (tokens s'.msg_buffer.stream_close_tks)
      ≡ count k (tokens s.msg_buffer.stream_tks)
        + count k (tokens s.msg_buffer.stream_close_tks)
        + more
    → waiting k (put_mut streams tk s') ≡ waiting k streams + more
unfolding put_mut get_mut
waiting-put_mut [] tk s s' k more e h = cc
waiting-put_mut (u ∷ streams) tk s s' k more e h = elim (Bool-cases (u.token == tk)) [
  | inl here ↦
      let is : u ≡ s = ground (arith, e, here) in
      rw (here, is)
        (omega (
          arith,
          h,
          count-append k (tokens s'.msg_buffer.stream_tks) (kept_tokens streams),
          count-append k (tokens s'.msg_buffer.stream_close_tks) (closed_tokens streams),
          count-append k (tokens s.msg_buffer.stream_tks) (kept_tokens streams),
          count-append k (tokens s.msg_buffer.stream_close_tks) (closed_tokens streams),
        ))
  | inr there ↦
      let rest : get_mut streams tk ≡ some s = ground (arith, e, there) in
      rw there (
        omega (
          arith,
          waiting-put_mut streams tk s s' k more rest h,
          count-append k (tokens u.msg_buffer.stream_tks) (kept_tokens streams),
          count-append k (tokens u.msg_buffer.stream_close_tks) (closed_tokens streams),
          count-append k (tokens u.msg_buffer.stream_tks) (kept_tokens (put_mut streams tk s')),
          count-append k (tokens u.msg_buffer.stream_close_tks)
              (closed_tokens (put_mut streams tk s')),
        ))
]
