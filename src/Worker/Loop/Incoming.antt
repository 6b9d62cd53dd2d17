-- ===== src/Worker/Loop/Incoming.antt =====
-- The streams that the server has sent, as a round takes them up.
use casket.Base.{
  ℕ, zero, suc, ◌+◌, ◌≤◌, ◌<◌, ◌≡◌, refl, sym, ap, subst, ◌∙◌, inl, inr, ◌⊎◌, Bool, true, false,
  none, some, List, [], ◌∷◌, ◌++◌, length, arith, All-append, ltb,
}
use casket.Base.Map.{insert, IsMap, insert-IsMap}
use casket.Msgs.Wire.{Request, Response, Format}
use casket.Msgs.WorkerBuffer.{WorkerMsgBuffer, next_stream_fd}
use casket.Worker.Events.{
  Event, ctrl_c, unix_stream_read, unix_stream_write, new_stream_fd, server_stream_read,
  queued_requests, poll_python_responses, server_stream_write, request_read_timeout,
  casket_response_write, python_code_timeout,
}
use casket.Worker.Loop.Flow.{one, in_map, in_map-insert}
use casket.Worker.Loop.Placed.{coming}
use casket.Worker.Loop.{take_streams, pending_events, when}
use casket.Worker.Poller.Plain.{IsPlain, ArePlain}
use casket.Worker.PythonThreads.{has_queued_reqs}
use casket.Worker.Reader.{Library}
use casket.Worker.{Worker}

pub coming-append :
    (k : ℕ) (evs more : List (ℕ × Event)) → coming k (evs ++ more) ≡ coming k evs + coming k more
coming-append k [] more = omega arith
coming-append k ((tk, ev) ∷ evs) more =
    let rest = coming-append k evs more in
    elim ev
      as (λ ev. coming k ((tk, ev) ∷ (evs ++ more)) ≡ coming k ((tk, ev) ∷ evs) + coming k more) [
        | new_stream_fd fd ↦ omega (arith, rest)
        | ctrl_c ↦ rest
        | unix_stream_read ↦ rest
        | unix_stream_write ↦ rest
        | server_stream_read ↦ rest
        | queued_requests ↦ rest
        | poll_python_responses ↦ rest
        | server_stream_write ↦ rest
        | request_read_timeout ↦ rest
        | casket_response_write ↦ rest
        | python_code_timeout ↦ rest
      ]

pub coming-ArePlain : (k : ℕ) (evs : List (ℕ × Event)) → ArePlain evs → coming k evs ≡ 0
coming-ArePlain k [] hs = refl
coming-ArePlain k ((tk, new_stream_fd fd) ∷ evs) (h, hs) = absurd h
coming-ArePlain k ((tk, ctrl_c) ∷ evs) (h, hs) = coming-ArePlain k evs hs
coming-ArePlain k ((tk, unix_stream_read) ∷ evs) (h, hs) = coming-ArePlain k evs hs
coming-ArePlain k ((tk, unix_stream_write) ∷ evs) (h, hs) = coming-ArePlain k evs hs
coming-ArePlain k ((tk, server_stream_read) ∷ evs) (h, hs) = coming-ArePlain k evs hs
coming-ArePlain k ((tk, queued_requests) ∷ evs) (h, hs) = coming-ArePlain k evs hs
coming-ArePlain k ((tk, poll_python_responses) ∷ evs) (h, hs) = coming-ArePlain k evs hs
coming-ArePlain k ((tk, server_stream_write) ∷ evs) (h, hs) = coming-ArePlain k evs hs
coming-ArePlain k ((tk, request_read_timeout) ∷ evs) (h, hs) = coming-ArePlain k evs hs
coming-ArePlain k ((tk, casket_response_write) ∷ evs) (h, hs) = coming-ArePlain k evs hs
coming-ArePlain k ((tk, python_code_timeout) ∷ evs) (h, hs) = coming-ArePlain k evs hs

-- How many of the messages name the stream.
abbrev pub named : ℕ → List Request → ℕ
named k [] = 0
named k (msg ∷ msgs) = one msg.token k + named k msgs

-- The server names no stream twice, and none that it awaits an answer about.
abbrev pub IsFresh : WorkerMsgBuffer → Type 0
IsFresh b = (k : ℕ) → named k b.stream_msgs + in_map k b.server_fds ≤ 1

-- The descriptor and the message at the front, and what is left behind them.
record Front (b : WorkerMsgBuffer) : Type 0 where
  fd : ℕ
  fds : List ℕ
  msg : Request
  msgs : List Request
  taken : (next_stream_fd b).1 ≡ some (msg.token, fd)
  messages : b.stream_msgs ≡ msg ∷ msgs
  one_less : length b.stream_fds ≡ suc (length (next_stream_fd b).0.stream_fds)
  left_messages : (next_stream_fd b).0.stream_msgs ≡ msgs
  left_fds : (next_stream_fd b).0.server_fds ≡ insert msg.token msg.fd b.server_fds

next_stream_fd-Front :
    (b : WorkerMsgBuffer) (fds : List ℕ) (msgs : List Request)
    → b.stream_fds ≡ fds
    → b.stream_msgs ≡ msgs
    → (next_stream_fd b ≡ (b, none)) ⊎ Front b
unfolding next_stream_fd
next_stream_fd-Front b [] msgs e e' = inl (ground arith)
next_stream_fd-Front b (fd ∷ fds) [] e e' = inl (ground arith)
next_stream_fd-Front b (fd ∷ fds) (msg ∷ msgs) e e' = inr (record {
  fd = fd;
  fds = fds;
  msg = msg;
  msgs = msgs;
  taken = ground arith;
  messages = e';
  one_less = ground arith;
  left_messages = ground arith;
  left_fds = ground arith;
})

next_stream_fd-cases : (b : WorkerMsgBuffer) → (next_stream_fd b ≡ (b, none)) ⊎ Front b
next_stream_fd-cases b = next_stream_fd-Front b b.stream_fds b.stream_msgs refl refl

-- The server awaits an answer about the streams that are taken up too.
pub record Takes (b b' : WorkerMsgBuffer) (evs : List (ℕ × Event)) : Type 0 where
  pub fds : IsMap b'.server_fds
  pub grown : (k : ℕ) → in_map k b'.server_fds ≡ in_map k b.server_fds + coming k evs

module _ {Method Url : Type 0} (lib : Library Method Url) (requests : Format Request)
    (responses : Format Response) where
  take_streams-Takes :
      (fuel : ℕ) (b : WorkerMsgBuffer)
      → IsMap b.server_fds
      → IsFresh b
      → Takes b
          (take_streams lib requests responses fuel b).0
          (take_streams lib requests responses fuel b).1
  unfolding take_streams
  take_streams-Takes zero b m fresh = record { fds = m; grown = λ k. omega arith }
  take_streams-Takes (suc fuel) b m fresh = elim (next_stream_fd-cases b) [
    | inl e ↦
        let left : (next_stream_fd b).0 ≡ b = ap (λ p. p.0) e in
        let nothing : (next_stream_fd b).1 ≡ none = ap (λ p. p.1) e in
        rw (nothing, take_streams) (rw left (record { fds = m; grown = λ k. omega arith }))
    | inr f ↦
        let msg = f.msg in
        let left = (next_stream_fd b).0 in
        let named_here : (k : ℕ) → named k b.stream_msgs ≡ one msg.token k + named k f.msgs =
          λ k. ap (named k) f.messages in
        let unknown : in_map msg.token b.server_fds ≡ 0 =
          ground (arith, fresh msg.token, named_here msg.token) in
        let step : (k : ℕ) → in_map k left.server_fds ≡ in_map k b.server_fds + one msg.token k =
          λ k. ap (in_map k) f.left_fds ∙ in_map-insert msg.token k msg.fd b.server_fds unknown in
        let rest =
          take_streams-Takes fuel left
            (subst IsMap (sym f.left_fds) (insert-IsMap msg.token msg.fd b.server_fds m))
            (λ k. omega (arith, fresh k, named_here k, step k, ap (named k) f.left_messages)) in
        rw (f.taken, take_streams)
          (record { fds = rest.fds; grown = λ k. omega (arith, rest.grown k, step k) })
  ]

  -- Behind one round more than there are descriptors, or further rounds, nothing more can be taken.
  take_streams-Done :
      (fuel : ℕ) (b : WorkerMsgBuffer)
      → length b.stream_fds < fuel
      → (next_stream_fd (take_streams lib requests responses fuel b).0).1 ≡ none
  unfolding take_streams
  take_streams-Done zero b h = absurd (omega (arith, h))
  take_streams-Done (suc fuel) b h = elim (next_stream_fd-cases b) [
    | inl e ↦
        let left : (next_stream_fd b).0 ≡ b = ap (λ p. p.0) e in
        let nothing : (next_stream_fd b).1 ≡ none = ap (λ p. p.1) e in
        rw (nothing, take_streams) (rw left nothing)
    | inr f ↦
        rw (f.taken, take_streams)
          (take_streams-Done fuel (next_stream_fd b).0 (omega (arith, f.one_less, h)))
  ]

  when_plain : (b : Bool) (ev : Event) → IsPlain ev → ArePlain (when lib requests responses b ev)
  when_plain true ev h = (h, tt)
  when_plain false ev h = tt

  pub pending_events-Takes :
      (w : Worker Method Url)
      → IsMap w.msg_buf.server_fds
      → IsFresh w.msg_buf
      → Takes w.msg_buf
          (pending_events lib requests responses w).0
          (pending_events lib requests responses w).1
  unfolding pending_events
  pending_events-Takes w m fresh =
      let taken = take_streams-Takes (suc (length w.msg_buf.stream_fds)) w.msg_buf m fresh in
      let polls =
        when lib requests responses (ltb 0 w.python_threads.num_pending_reqs)
          poll_python_responses in
      let queued = when lib requests responses (has_queued_reqs w.python_threads) queued_requests in
      record {
        fds = taken.fds;
        grown = λ k. omega (
          arith,
          taken.grown k,
          coming-append k
              (take_streams lib requests responses (suc (length w.msg_buf.stream_fds)) w.msg_buf).1
              (polls ++ queued),
          coming-ArePlain k (polls ++ queued) (
              All-append _ polls queued
                (when_plain (ltb 0 w.python_threads.num_pending_reqs) poll_python_responses tt)
                (when_plain (has_queued_reqs w.python_threads) queued_requests tt)),
        );
      }
