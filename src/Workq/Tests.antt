-- ===== src/Workq/Tests.antt =====
-- The queue at concrete inputs.
use casket.Base.{ℕ, ◌≡◌, refl, true, false, none, some, [], ◌∷◌, arith, ok, suc, add_usize}
use casket.Workq.{Channel, Sender, deliver, new, new_recv, send, send_at}
use casket.Workq.Ring.{ring, skip_dead}
use casket.Workq.Delivery.{SendsTo, send_delivers, send_all, send_all_round_robin}

abbrev idle : Channel ℕ
idle = record { alive = true; queue = [] }

abbrev gone : Channel ℕ
gone = record { alive = false; queue = [] }

abbrev three : Sender ℕ
three = new_recv (new_recv (new_recv new))

-- The second receiver has died.
abbrev one_dead : Sender ℕ
one_dead = record { pos = 0; senders = idle ∷ gone ∷ idle ∷ [] }

send_skips :
    send one_dead 7 ≡ some (record { pos = 1; senders = idle ∷ deliver idle 7 ∷ [] }, ok tt)
unfolding send send_at add_usize
send_skips = refl

-- A receiver made after every other has died is out of the reach of `pos`: the next send panics.
late_recv_panics : send {T = ℕ} (new_recv (record { pos = 1; senders = [] })) 7 ≡ none
unfolding send send_at add_usize
late_recv_panics = refl

send_delivers_example : SendsTo 7 (skip_dead (ring 1 one_dead.senders)) (send one_dead 7)
send_delivers_example = send_delivers one_dead 7 (omega arith) (omega arith)

send_all_round_robin_example :
    (s' : Sender ℕ) × (send_all three (4 ∷ 5 ∷ 6 ∷ []) ≡ some s')
    × (ring (suc s'.pos) s'.senders ≡ deliver idle 4 ∷ deliver idle 5 ∷ deliver idle 6 ∷ [])
send_all_round_robin_example =
    send_all_round_robin three (4 ∷ 5 ∷ 6 ∷ []) (omega arith) (omega arith)
      (refl, (refl, (refl, tt))) (omega arith)
