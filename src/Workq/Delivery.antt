-- ===== src/Workq/Delivery.antt =====
-- Where `send` delivers: to the next live receiver in ring order.
use casket.Base.{
  ℕ, zero, suc, ◌+◌, ◌≤◌, ◌<◌, ◌≡◌, refl, sym, ◌∙◌, ap, inl, inr, true, false, Option, none, some,
  List, [], ◌∷◌, ◌++◌, ◌==◌, arith, Result, ok, err, length, get_elem?, set, length-set, Bool-cases,
  subst, add_usize_lem, usize_mod, append_assoc, append-nil, All,
}
use casket.Workq.{Channel, Sender, deliver, remove_at, wrap_pos, send_at, send_loop, send}
use casket.Workq.Ring.{
  skip_dead_live, skip_dead_dead, ring-suc, length-ring, ring, skip_dead, get_elem?_lt,
  length-remove_at, ring-length, ring-remove_at, ring-set,
}

module _ {T : Type 0} where
  -- What a send of `t` does, where `live` are the senders from the first live one on.
  abbrev pub SendsTo : T → List (Channel T) → Option (Sender T × Result T (Unit {0})) → Type 0
  SendsTo t [] r = (s : Sender T) × (r ≡ some (s, err t)) × (s.senders ≡ [])
  SendsTo t (c ∷ rest) r =
      (s : Sender T) × (r ≡ some (s, ok tt))
      × (ring s.pos s.senders ≡ deliver c t ∷ rest)
      × (s.pos < length s.senders)

  wrap_pos-ring :
      (s : Sender T) → s.pos ≤ length s.senders → ring (wrap_pos s) s.senders ≡ ring s.pos s.senders
  wrap_pos-ring s h = elim (Bool-cases (s.pos == length s.senders)) [
    | inl e ↦ rw e (
        sym (ring-length s.senders)
        ∙ ap (λ n. ring n s.senders) (let p : length s.senders ≡ s.pos = ground arith in p))
    | inr e ↦ rw e refl
  ]

  wrap_pos-lt :
      (s : Sender T)
      → s.pos ≤ length s.senders
      → 0 < length s.senders
      → wrap_pos s < length s.senders
  wrap_pos-lt s h h' = ground arith

  send_at_live :
      (pos : ℕ) (cs : List (Channel T)) (t : T) (c : Channel T)
      (rest : Option (Sender T × Result T (Unit {0})))
      → get_elem? cs pos ≡ some c
      → c.alive ≡ true
      → send_at pos cs t rest
        ≡ some (record { pos = pos; senders = set cs pos (deliver c t) }, ok tt)
  unfolding send_at
  send_at_live pos cs t c rest e live = ground arith

  send_at_dead :
      (pos : ℕ) (cs : List (Channel T)) (t : T) (c : Channel T)
      (rest : Option (Sender T × Result T (Unit {0})))
      → get_elem? cs pos ≡ some c
      → c.alive ≡ false
      → send_at pos cs t rest ≡ rest
  unfolding send_at
  send_at_dead pos cs t c rest e dead = ground arith

  send_at-SendsTo :
      (pos : ℕ) (cs : List (Channel T)) (t : T) (c : Channel T)
      (rest : Option (Sender T × Result T (Unit {0})))
      → pos < length cs
      → get_elem? cs pos ≡ some c
      → SendsTo t (skip_dead (ring pos (remove_at cs pos))) rest
      → SendsTo t (skip_dead (ring pos cs)) (send_at pos cs t rest)
  send_at-SendsTo pos cs t c rest h e next = elim (Bool-cases c.alive) [
    | inl live ↦
        rw
          (
            ring-remove_at cs pos c e,
            send_at_live pos cs t c rest e live,
            skip_dead_live c (ring pos (remove_at cs pos)) live,
          )
          (
            record { pos = pos; senders = set cs pos (deliver c t) },
            refl,
            ring-set cs pos c (deliver c t) h e,
            omega (arith, length-set cs pos (deliver c t)),
          )
    | inr dead ↦
        rw
          (
            ring-remove_at cs pos c e,
            send_at_dead pos cs t c rest e dead,
            skip_dead_dead c (ring pos (remove_at cs pos)) dead,
          )
          next
  ]

  send_loop-SendsTo :
      (fuel pos : ℕ) (cs : List (Channel T)) (t : T)
      → pos ≤ length cs
      → length cs ≤ fuel
      → SendsTo t (skip_dead (ring pos cs)) (send_loop fuel (record { pos = pos; senders = cs }) t)
  unfolding send_loop
  send_loop-SendsTo zero zero [] t h h' = (record { pos = 0; senders = [] }, refl, refl)
  send_loop-SendsTo zero (suc pos) [] t h h' = absurd (omega arith)
  send_loop-SendsTo zero pos (c ∷ cs) t h h' = absurd (omega arith)
  send_loop-SendsTo (suc fuel) zero [] t h h' = (record { pos = 0; senders = [] }, refl, refl)
  send_loop-SendsTo (suc fuel) (suc pos) [] t h h' = absurd (omega arith)
  send_loop-SendsTo (suc fuel) pos (x ∷ xs) t h h' =
      let s : Sender T = record { pos = pos; senders = x ∷ xs } in
      let inside = wrap_pos-lt s h (omega arith) in
      let (c, e) = get_elem?_lt (x ∷ xs) (wrap_pos s) inside in
      subst (λ cs. SendsTo t (skip_dead cs) (send_loop (suc fuel) s t)) (wrap_pos-ring s h)
        (send_at-SendsTo (wrap_pos s) (x ∷ xs) t c _ inside e (
          send_loop-SendsTo fuel (wrap_pos s) (remove_at (x ∷ xs) (wrap_pos s)) t
            (omega (arith, length-remove_at (x ∷ xs) (wrap_pos s) inside))
            (omega (arith, length-remove_at (x ∷ xs) (wrap_pos s) inside))))

  -- From a valid state `send` never indexes out of range. It delivers to the first live receiver
  -- behind the position of the last delivery, in ring order, drops the dead ones that it passes
  -- and no other, and stands at the receiver it served; it gives the message back, with no sender
  -- left, exactly when every receiver is dead.
  pub send_delivers :
      (s : Sender T) (t : T)
      → s.pos < length s.senders
      → length s.senders < usize_mod
      → SendsTo t (skip_dead (ring (s.pos + 1) s.senders)) (send s t)
  unfolding send
  send_delivers s t h big =
      rw (add_usize_lem s.pos 1 (omega arith))
        (send_loop-SendsTo (length s.senders) (s.pos + 1) s.senders t (omega arith) (omega arith))

  -- The messages sent one after another; `none` if one of them panics or is given back.
  pub send_all : Sender T → List T → Option (Sender T)
  send_all s [] = some s
  send_all s (t ∷ ts) = elim (send s t) [
    | none ↦ none
    | some (s', ok _) ↦ send_all s' ts
    | some (s', err _) ↦ none
  ]

  -- Each channel with the message of its place.
  abbrev pub deliver_each : List (Channel T) → List T → List (Channel T)
  deliver_each [] ts = []
  deliver_each (c ∷ cs) [] = c ∷ cs
  deliver_each (c ∷ cs) (t ∷ ts) = deliver c t ∷ deliver_each cs ts

  abbrev pub IsAlive : Channel T → Type 0
  IsAlive c = c.alive ≡ true

  -- `first` are still to be served in this round, `served` have been.
  abbrev Round : List (Channel T) → List T → Sender T → Type 0
  Round final ts s =
      (s' : Sender T) × (send_all s ts ≡ some s') × (ring (suc s'.pos) s'.senders ≡ final)

  -- One send, where the next receiver lives: afterwards it is the last in ring order.
  pub send_live :
      (s : Sender T) (t : T) (c : Channel T) (rest : List (Channel T))
      → s.pos < length s.senders
      → length s.senders < usize_mod
      → ring (suc s.pos) s.senders ≡ c ∷ rest
      → c.alive ≡ true
      → (s' : Sender T) × (send s t ≡ some (s', ok tt))
        × (ring (suc s'.pos) s'.senders ≡ rest ++ deliver c t ∷ [])
        × (s'.pos < length s'.senders)
        × (length s'.senders ≡ length s.senders)
  send_live s t c rest h big e live =
      let next : s.pos + 1 ≡ suc s.pos = omega arith in
      let order : skip_dead (ring (s.pos + 1) s.senders) ≡ c ∷ rest =
        ap (λ n. skip_dead (ring n s.senders)) next ∙ ap skip_dead e ∙ skip_dead_live c rest live in
      let (s', sent, here, inside) =
        subst (λ cs. SendsTo t cs (send s t)) order (send_delivers s t h big) in
      let size : length s'.senders ≡ length s.senders = omega (
        arith,
        ap length here,
        ap length e,
        length-ring s'.senders s'.pos (omega arith),
        length-ring s.senders (suc s.pos) (omega arith),
      ) in
      (s', sent, ring-suc s'.senders s'.pos (deliver c t) rest inside here, inside, size)

  send_all_nil : (s : Sender T) → send_all s [] ≡ some s
  unfolding send_all
  send_all_nil s = refl

  send_all_cons :
      (s s' : Sender T) (t : T) (ts : List T)
      → send s t ≡ some (s', ok tt)
      → send_all s (t ∷ ts) ≡ send_all s' ts
  unfolding send_all
  send_all_cons s s' t ts e = ground arith

  send_all_lem :
      (first served : List (Channel T)) (ts : List T) (s : Sender T)
      → length ts ≡ length first
      → All IsAlive first
      → s.pos < length s.senders
      → length s.senders < usize_mod
      → ring (suc s.pos) s.senders ≡ first ++ served
      → Round (served ++ deliver_each first ts) ts s
  send_all_lem [] served [] s n live h big e = (s, send_all_nil s, e ∙ sym (append-nil served))
  send_all_lem [] served (t ∷ ts) s n live h big e = absurd (omega arith)
  send_all_lem (c ∷ first) served [] s n live h big e = absurd (omega arith)
  send_all_lem (c ∷ first) served (t ∷ ts) s n live h big e =
      let (s', sent, turned, inside, size) = send_live s t c (first ++ served) h big e live.0 in
      let (u, all, end) =
        send_all_lem first (served ++ deliver c t ∷ []) ts s' (omega arith) live.1 inside
          (omega arith) (turned ∙ append_assoc first served (deliver c t ∷ [])) in
      (
        u,
        send_all_cons s s' t ts sent ∙ all,
        end ∙ append_assoc served (deliver c t ∷ []) (deliver_each first ts),
      )

  -- Round robin: with every receiver alive, as many messages as there are receivers go one to
  -- each, in ring order from the one behind the last delivery, and none fails.
  pub send_all_round_robin :
      (s : Sender T) (ts : List T)
      → s.pos < length s.senders
      → length s.senders < usize_mod
      → All IsAlive (ring (suc s.pos) s.senders)
      → length ts ≡ length s.senders
      → (s' : Sender T) × (send_all s ts ≡ some s')
        × (ring (suc s'.pos) s'.senders ≡ deliver_each (ring (suc s.pos) s.senders) ts)
  send_all_round_robin s ts h big live n =
      send_all_lem (ring (suc s.pos) s.senders) [] ts s
        (omega (arith, length-ring s.senders (suc s.pos) (omega arith))) live h big
        (sym (append-nil _))
