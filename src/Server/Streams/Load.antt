-- ===== src/Server/Streams/Load.antt =====
-- The choice of the worker for a request.
use casket.Base.{
  ℕ, zero, suc, ◌+◌, ◌++◌, add_usize_lem, subst, ap, ◌∙◌, ◌-◌, ◌≤◌, ◌<◌, ◌≡◌, refl, ◌⊎◌, Bool-cases,
  inl, inr, none, some, List, [], ◌∷◌, arith, ltb, get_elem?, set, All, usize_mod,
}
use casket.Msgs.ServerBuffer
use casket.Server.Streams.{UnixStream, least_loaded, msg_send_tcp_stream, send_to_stream}

-- The count of its requests has room for one more.
abbrev pub HasRoom : UnixStream → Type 0
HasRoom s = s.num_reqs + 1 < usize_mod

abbrev pub IsBusier : ℕ → UnixStream → Type 0
IsBusier k s = k ≤ s.num_reqs

All-mono :
    (j k : ℕ) (streams : List UnixStream)
    → j ≤ k
    → All (IsBusier k) streams
    → All (IsBusier j) streams
All-mono j k [] h a = tt
All-mono j k (s ∷ streams) h a = (omega arith, All-mono j k streams h a.1)

-- The result of the loop: the index it began with, or that of a stream with fewer requests than
-- any before, and no more than any.
abbrev pub IsLeast : List UnixStream → ℕ → ℕ → ℕ → ℕ → Type 0
IsLeast streams n ind num_reqs i =
    ((i ≡ ind) × All (IsBusier num_reqs) streams)
    ⊎ ((j : ℕ) × (s : UnixStream) × (i ≡ n + j)
        × (get_elem? streams j ≡ some s)
        × (s.num_reqs < num_reqs)
        × All (IsBusier s.num_reqs) streams)

pub least_loaded-IsLeast :
    (streams : List UnixStream) (n ind num_reqs : ℕ)
    → IsLeast streams n ind num_reqs (least_loaded streams n ind num_reqs)
unfolding least_loaded
least_loaded-IsLeast [] n ind num_reqs = inl (refl, tt)
least_loaded-IsLeast (s ∷ streams) n ind num_reqs = elim (Bool-cases (ltb s.num_reqs num_reqs)) [
  | inl better ↦ rw better (elim (least_loaded-IsLeast streams (suc n) n s.num_reqs) [
    | inl (i, all) ↦ inr (0, s, omega (arith, i), refl, ground arith, (omega arith, all))
    | inr (j, t, i, e, less, all) ↦
        inr (suc j, t, omega (arith, i), e, ground (arith, less), (omega arith, all))
  ])
  | inr worse ↦ rw worse (elim (least_loaded-IsLeast streams (suc n) ind num_reqs) [
    | inl (i, all) ↦ inl (i, (ground arith, all))
    | inr (j, t, i, e, less, all) ↦
        inr (suc j, t, omega (arith, i), e, less, (ground (arith, less), all))
  ])
]

pub msg_send_tcp_stream_at :
    (streams : List UnixStream) (tk fd i : ℕ) (s : UnixStream)
    → least_loaded streams 0 0 (usize_mod - 1) ≡ i
    → get_elem? streams i ≡ some s
    → msg_send_tcp_stream streams tk fd ≡ some (set streams i (send_to_stream s tk fd))
unfolding msg_send_tcp_stream
msg_send_tcp_stream_at streams tk fd i s e e' = ground arith

-- The socket with one request more to answer, which waits behind the others to be sent.
abbrev pub asked : UnixStream → ℕ → ℕ → UnixStream
asked s tk fd = record s {
  num_reqs = s.num_reqs + 1;
  msg_buffer = record (s.msg_buffer) {
    to_send = s.msg_buffer.to_send ++ (record { token = tk; fd = fd }, fd) ∷ [];
  };
}

send_to_stream-asked :
    (s : UnixStream) (tk fd : ℕ)
    → s.num_reqs + 1 < usize_mod
    → send_to_stream s tk fd ≡ asked s tk fd
unfolding send_to_stream ServerBuffer.req_tcp_stream_fd
send_to_stream-asked s tk fd h = let counted = add_usize_lem s.num_reqs 1 h in rw counted refl

HasRoom-get_elem? :
    (streams : List UnixStream) (j : ℕ) (s : UnixStream)
    → All HasRoom streams
    → get_elem? streams j ≡ some s
    → HasRoom s
HasRoom-get_elem? [] j s h e = absurd (cc)
HasRoom-get_elem? (t ∷ streams) zero s h e =
    let same : t ≡ s = ground arith in subst HasRoom same h.0
HasRoom-get_elem? (t ∷ streams) (suc j) s h e = HasRoom-get_elem? streams j s h.1 e

-- A request goes to a worker that has no more unanswered requests than any other, and only that
-- worker's stream changes: the request, with its token and descriptor, waits behind the others to
-- be sent, and there is one more to answer.
pub msg_send_tcp_stream-least :
    (s₀ : UnixStream) (rest : List UnixStream) (tk fd : ℕ)
    → All HasRoom (s₀ ∷ rest)
    → (i : ℕ) × (s : UnixStream) × (get_elem? (s₀ ∷ rest) i ≡ some s)
      × (msg_send_tcp_stream (s₀ ∷ rest) tk fd ≡ some (set (s₀ ∷ rest) i (asked s tk fd)))
      × All (IsBusier s.num_reqs) (s₀ ∷ rest)
msg_send_tcp_stream-least s₀ rest tk fd h =
    elim (least_loaded-IsLeast (s₀ ∷ rest) 0 0 (usize_mod - 1)) [
      | inl (i, all) ↦ (
        0,
        s₀,
        refl,
        msg_send_tcp_stream_at (s₀ ∷ rest) tk fd 0 s₀ i refl
            ∙ ap (λ s. some (set (s₀ ∷ rest) 0 s)) (send_to_stream-asked s₀ tk fd h.0),
        All-mono s₀.num_reqs (usize_mod - 1) (s₀ ∷ rest) (omega (arith, h.0)) all,
      )
      | inr (j, s, i, e, less, all) ↦ (
        j,
        s,
        e,
        msg_send_tcp_stream_at (s₀ ∷ rest) tk fd j s (omega (arith, i)) e
            ∙ ap (λ s. some (set (s₀ ∷ rest) j s))
                (send_to_stream-asked s tk fd (HasRoom-get_elem? (s₀ ∷ rest) j s h e)),
        all,
      )
    ]

-- With no worker there is no stream to take, and the server panics.
pub msg_send_tcp_stream_nil : (tk fd : ℕ) → msg_send_tcp_stream [] tk fd ≡ none
unfolding msg_send_tcp_stream least_loaded
msg_send_tcp_stream_nil tk fd = refl
