-- ===== src/Server/Streams/Drain.antt =====
-- The loops that collect the tokens that the workers have given back.
use casket.Base.{
  ℕ, zero, suc, ◌-◌, ◌≤◌, ◌<◌, ◌≡◌, refl, ◌∙◌, ap, some, none, List, [], ◌∷◌, ◌++◌, map, arith,
  length, sub_usize, sub_usize_lem, usize_mod, concat, All, ◌+◌,
}
use casket.Msgs.ServerBuffer
use casket.Msgs.ServerBuffer.{ServerMsgBuffer}
use casket.Server.Streams.{
  UnixStream, next_stream_tk, next_stream_close_tk, drain_tks, drain_close_tks, next_stream_tks,
  next_stream_close_tks,
}

abbrev pub tokens : List (ℕ × ℕ) → List ℕ
tokens = map (λ e. e.0)

pub next_stream_tk_nil :
    (s : UnixStream) → s.msg_buffer.stream_tks ≡ [] → next_stream_tk s ≡ (s, none)
unfolding next_stream_tk ServerBuffer.next_stream_tk
next_stream_tk_nil s e = ground arith

pub next_stream_tk_cons :
    (s : UnixStream) (tk fd : ℕ) (rest : List (ℕ × ℕ))
    → s.msg_buffer.stream_tks ≡ (tk, fd) ∷ rest
    → next_stream_tk s ≡ (
      record s {
        msg_buffer = record (s.msg_buffer) { stream_tks = rest };
        num_reqs = sub_usize s.num_reqs 1;
      },
      some tk,
    )
unfolding next_stream_tk ServerBuffer.next_stream_tk
next_stream_tk_cons s tk fd rest e = ground arith

pub next_stream_close_tk_nil :
    (s : UnixStream) → s.msg_buffer.stream_close_tks ≡ [] → next_stream_close_tk s ≡ (s, none)
unfolding next_stream_close_tk ServerBuffer.next_stream_close_tk
next_stream_close_tk_nil s e = ground arith

pub next_stream_close_tk_cons :
    (s : UnixStream) (tk fd : ℕ) (rest : List (ℕ × ℕ))
    → s.msg_buffer.stream_close_tks ≡ (tk, fd) ∷ rest
    → next_stream_close_tk s ≡ (
      record s {
        msg_buffer = record (s.msg_buffer) { stream_close_tks = rest };
        num_reqs = sub_usize s.num_reqs 1;
      },
      some tk,
    )
unfolding next_stream_close_tk ServerBuffer.next_stream_close_tk
next_stream_close_tk_cons s tk fd rest e = ground arith

pub drain_tks_step :
    (fuel tk : ℕ) (s s' : UnixStream)
    → next_stream_tk s ≡ (s', some tk)
    → drain_tks (suc fuel) s ≡ ((drain_tks fuel s').0, tk ∷ (drain_tks fuel s').1)
unfolding drain_tks
drain_tks_step fuel tk s s' e = ground arith

pub drain_tks_stop :
    (fuel : ℕ) (s : UnixStream) → next_stream_tk s ≡ (s, none) → drain_tks (suc fuel) s ≡ (s, [])
unfolding drain_tks
drain_tks_stop fuel s e = ground arith

drain_tks_all :
    (fuel : ℕ) (s : UnixStream) (tks : List (ℕ × ℕ))
    → s.msg_buffer.stream_tks ≡ tks
    → length tks < fuel
    → length tks ≤ s.num_reqs
    → s.num_reqs < usize_mod
    → drain_tks fuel s ≡ (
      record s {
        msg_buffer = record (s.msg_buffer) { stream_tks = [] };
        num_reqs = s.num_reqs - length tks;
      },
      tokens tks,
    )
drain_tks_all zero s tks e h h' big = elim h [ ]
drain_tks_all (suc fuel) s [] e h h' big = drain_tks_stop fuel s (next_stream_tk_nil s e) ∙ λ i. (
  record s {
    msg_buffer = record (s.msg_buffer) { stream_tks = e i };
    num_reqs = let same : s.num_reqs ≡ s.num_reqs - 0 = omega arith in same i;
  },
  [],
)
drain_tks_all (suc fuel) s ((tk, fd) ∷ tks) e h h' big =
    let s' : UnixStream = record s {
      msg_buffer = record (s.msg_buffer) { stream_tks = tks };
      num_reqs = sub_usize s.num_reqs 1;
    } in
    let one : sub_usize s.num_reqs 1 ≡ s.num_reqs - 1 =
      sub_usize_lem s.num_reqs 1 (omega arith) big in
    let rest = drain_tks_all fuel s' tks refl (omega arith) (omega arith) (omega arith) in
    let left : sub_usize s.num_reqs 1 - length tks ≡ s.num_reqs - suc (length tks) = omega arith in
    drain_tks_step fuel tk s s' (next_stream_tk_cons s tk fd tks e) ∙ λ i.
    (record ((rest i).0) { num_reqs = (ap (λ r. r.0.num_reqs) rest ∙ left) i }, tk ∷ (rest i).1)

pub drain_close_tks_step :
    (fuel tk : ℕ) (s s' : UnixStream)
    → next_stream_close_tk s ≡ (s', some tk)
    → drain_close_tks (suc fuel) s ≡ ((drain_close_tks fuel s').0, tk ∷ (drain_close_tks fuel s').1)
unfolding drain_close_tks
drain_close_tks_step fuel tk s s' e = ground arith

pub drain_close_tks_stop :
    (fuel : ℕ) (s : UnixStream)
    → next_stream_close_tk s ≡ (s, none)
    → drain_close_tks (suc fuel) s ≡ (s, [])
unfolding drain_close_tks
drain_close_tks_stop fuel s e = ground arith

drain_close_tks_all :
    (fuel : ℕ) (s : UnixStream) (tks : List (ℕ × ℕ))
    → s.msg_buffer.stream_close_tks ≡ tks
    → length tks < fuel
    → length tks ≤ s.num_reqs
    → s.num_reqs < usize_mod
    → drain_close_tks fuel s ≡ (
      record s {
        msg_buffer = record (s.msg_buffer) { stream_close_tks = [] };
        num_reqs = s.num_reqs - length tks;
      },
      tokens tks,
    )
drain_close_tks_all zero s tks e h h' big = elim h [ ]
drain_close_tks_all (suc fuel) s [] e h h' big =
    drain_close_tks_stop fuel s (next_stream_close_tk_nil s e) ∙ λ i. (
      record s {
        msg_buffer = record (s.msg_buffer) { stream_close_tks = e i };
        num_reqs = let same : s.num_reqs ≡ s.num_reqs - 0 = omega arith in same i;
      },
      [],
    )
drain_close_tks_all (suc fuel) s ((tk, fd) ∷ tks) e h h' big =
    let s' : UnixStream = record s {
      msg_buffer = record (s.msg_buffer) { stream_close_tks = tks };
      num_reqs = sub_usize s.num_reqs 1;
    } in
    let one : sub_usize s.num_reqs 1 ≡ s.num_reqs - 1 =
      sub_usize_lem s.num_reqs 1 (omega arith) big in
    let rest = drain_close_tks_all fuel s' tks refl (omega arith) (omega arith) (omega arith) in
    let left : sub_usize s.num_reqs 1 - length tks ≡ s.num_reqs - suc (length tks) = omega arith in
    drain_close_tks_step fuel tk s s' (next_stream_close_tk_cons s tk fd tks e) ∙ λ i.
    (record ((rest i).0) { num_reqs = (ap (λ r. r.0.num_reqs) rest ∙ left) i }, tk ∷ (rest i).1)

-- Every response that waits answers one of the requests that the stream counts.
pub record IsAccounted (s : UnixStream) : Type 0 where
  pub answered : length s.msg_buffer.stream_tks + length s.msg_buffer.stream_close_tks ≤ s.num_reqs
  pub bounded : s.num_reqs < usize_mod

abbrev pub drained : UnixStream → UnixStream
drained s = record s {
  msg_buffer = record (s.msg_buffer) { stream_tks = [] };
  num_reqs = s.num_reqs - length s.msg_buffer.stream_tks;
}

abbrev pub drained_close : UnixStream → UnixStream
drained_close s = record s {
  msg_buffer = record (s.msg_buffer) { stream_close_tks = [] };
  num_reqs = s.num_reqs - length s.msg_buffer.stream_close_tks;
}

-- One pass collects the token of every waiting response that keeps its stream, stream by stream
-- and in order, empties those queues, lowers each count by the number collected with no wrap, and
-- keeps the counts right.
pub next_stream_tks-collects :
    (streams : List UnixStream)
    → All IsAccounted streams
    → (next_stream_tks streams
        ≡ (map drained streams, concat (map (λ s. tokens s.msg_buffer.stream_tks) streams)))
      × All IsAccounted (map drained streams)
unfolding next_stream_tks
next_stream_tks-collects [] h = (refl, tt)
next_stream_tks-collects (s ∷ streams) (a, h) =
    let (rest, left) = next_stream_tks-collects streams h in
    let one =
      drain_tks_all (suc (length s.msg_buffer.stream_tks)) s s.msg_buffer.stream_tks refl
        (omega arith) (omega (arith, a.answered)) a.bounded in
    (
      λ i. ((one i).0 ∷ (rest i).0, (one i).1 ++ (rest i).1),
      (record { answered = omega (arith, a.answered); bounded = omega (arith, a.bounded) }, left),
    )

-- The same of the responses that close their stream.
pub next_stream_close_tks-collects :
    (streams : List UnixStream)
    → All IsAccounted streams
    → (next_stream_close_tks streams ≡ (
      map drained_close streams,
      concat (map (λ s. tokens s.msg_buffer.stream_close_tks) streams),
    ))
      × All IsAccounted (map drained_close streams)
unfolding next_stream_close_tks
next_stream_close_tks-collects [] h = (refl, tt)
next_stream_close_tks-collects (s ∷ streams) (a, h) =
    let (rest, left) = next_stream_close_tks-collects streams h in
    let one =
      drain_close_tks_all (suc (length s.msg_buffer.stream_close_tks)) s
        s.msg_buffer.stream_close_tks refl (omega arith) (omega (arith, a.answered)) a.bounded in
    (
      λ i. ((one i).0 ∷ (rest i).0, (one i).1 ++ (rest i).1),
      (record { answered = omega (arith, a.answered); bounded = omega (arith, a.bounded) }, left),
    )
