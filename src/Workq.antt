-- ===== src/Workq.antt =====
-- src/workq.rs: the queue by which a worker hands requests to its python threads.
-- An `mpsc` channel is what it holds and whether its receiver still lives: a send succeeds exactly
-- when it does. A result of `none` is a panic.
pub mod Ring
pub mod Delivery
pub mod Tests
use casket.Base.{
  ℕ, zero, suc, ◌+◌, ◌<◌, ◌≡◌, ◌⊎◌, Bool, true, false, Option, none, some, List, [], ◌∷◌, ◌++◌,
  ◌==◌, if◌then◌else◌, Result, ok, err, length, get_elem?, set, add_usize, usize_mod,
}

pub record Channel (T : Type 0) : Type 0 where
  pub alive : Bool
  pub queue : List T

pub record Sender (T : Type 0) : Type 0 where
  pub pos : ℕ
  pub senders : List (Channel T)

module _ {T : Type 0} where
  -- `mpsc::Sender::send` to a live receiver.
  abbrev pub deliver : Channel T → T → Channel T
  deliver c t = record c { queue = c.queue ++ t ∷ [] }

  -- `Vec::remove`.
  abbrev pub remove_at : List (Channel T) → ℕ → List (Channel T)
  remove_at [] i = []
  remove_at (c ∷ cs) zero = cs
  remove_at (c ∷ cs) (suc i) = c ∷ remove_at cs i

  abbrev pub new : Sender T
  new = record { pos = 0; senders = [] }

  -- The receiver's end is the channel itself, by its index.
  abbrev pub new_recv : Sender T → Sender T
  new_recv s = record s { senders = s.senders ++ record { alive = true; queue = [] } ∷ [] }

  abbrev pub wrap_pos : Sender T → ℕ
  wrap_pos s = if s.pos == length s.senders then 0 else s.pos

  -- One round of the loop, at the sender of index `pos`; `rest` are the rounds to come.
  pub send_at :
      ℕ
      → List (Channel T)
      → T
      → Option (Sender T × Result T (Unit {0}))
      → Option (Sender T × Result T (Unit {0}))
  send_at pos cs t rest = elim (get_elem? cs pos) [
    | none ↦ none
    | some c ↦
        if c.alive
        then some (record { pos = pos; senders = set cs pos (deliver c t) }, ok tt)
        else rest
  ]

  -- The `while` loop of `send`. Each round that does not return removes a sender, so there are
  -- no more rounds than senders.
  pub send_loop : ℕ → Sender T → T → Option (Sender T × Result T (Unit {0}))
  send_loop zero s t = some (s, err t)
  send_loop (suc fuel) s t =
      let pos = wrap_pos s in
      let rest = send_loop fuel (record { pos = pos; senders = remove_at s.senders pos }) t in
      elim s.senders [ [] ↦ some (s, err t) | c ∷ cs ↦ send_at pos (c ∷ cs) t rest ]

  pub send : Sender T → T → Option (Sender T × Result T (Unit {0}))
  unfolding send_loop
  send s t = send_loop (length s.senders) (record s { pos = add_usize s.pos 1 }) t

  -- The state in which `send` leaves the queue, and in which it finds it.
  abbrev pub IsValid : Sender T → Type 0
  IsValid s = (s.senders ≡ []) ⊎ ((s.pos < length s.senders) × (length s.senders < usize_mod))
