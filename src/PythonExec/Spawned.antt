-- ===== src/PythonExec/Spawned.antt =====
-- From the start of the threads to the requests in their queues.
use casket.Base.{
  ℕ, zero, suc, ◌+◌, ◌<◌, ◌≡◌, refl, sym, ap, ◌∙◌, Option, some, true, List, [], ◌∷◌, ◌++◌, ok,
  Result, length, length-append, All, All-append, arith, add_usize, add_usize_lem, usize_mod, subst,
  take, drop,
}
use casket.Config.{Config}
use casket.Errors.{RuntimeError}
use casket.Http.{HttpRequest}
use casket.PythonExec.{new_recvs, spawn}
use casket.Worker.PythonThreads.{PythonThreads, send_each, send_queued_requests}
use casket.Workq.{Channel, Sender, deliver, new, new_recv, send}
use casket.Workq.Delivery.{IsAlive, send_live}
use casket.Workq.Ring.{ring, length-ring}

module _ {T : Type 0} where
  -- The receivers in the order in which the next messages go to them.
  abbrev pub in_turn : Sender T → List (Channel T)
  in_turn s = ring (suc s.pos) s.senders

  -- Every thread lives, and there is one.
  pub record IsReady (s : Sender T) : Type 0 where
    pub inside : s.pos < length s.senders
    pub bounded : length s.senders < usize_mod
    pub live : All IsAlive (in_turn s)

  -- Each message goes to the receiver whose turn it is, which is the last then.
  abbrev pub round_robin : List (Channel T) → List T → List (Channel T)
  round_robin cs [] = cs
  round_robin [] (t ∷ ts) = []
  round_robin (c ∷ cs) (t ∷ ts) = round_robin (cs ++ deliver c t ∷ []) ts

  cons-of_length :
      (cs : List (Channel T))
      → 0 < length cs
      → (c : Channel T) × (rest : List (Channel T)) × (cs ≡ c ∷ rest)
  cons-of_length [] h = absurd (omega arith)
  cons-of_length (c ∷ rest) h = (c, rest, refl)

  send-in_turn :
      (s : Sender T) (t : T)
      → IsReady s
      → (s' : Sender T) × (send s t ≡ some (s', ok tt))
        × IsReady s'
        × ((ts : List T) → round_robin (in_turn s) (t ∷ ts) ≡ round_robin (in_turn s') ts)
  send-in_turn s t h =
      let size = length-ring s.senders (suc s.pos) (omega (arith, h.inside)) in
      let (c, rest, e) = cons-of_length (in_turn s) (omega (arith, size, h.inside)) in
      let live = subst (All IsAlive) e h.live in
      let (s', sent, turned, inside, same) = send_live s t c rest h.inside h.bounded e live.0 in
      (
        s',
        sent,
        record {
          inside = inside;
          bounded = omega (arith, same, h.bounded);
          live =
              subst (All IsAlive) (sym turned)
                (All-append IsAlive rest (deliver c t ∷ []) live.1 (live.0, tt));
        },
        λ ts. ap (λ cs. round_robin cs (t ∷ ts)) e ∙ ap (λ cs. round_robin cs ts) (sym turned),
      )

  -- How many messages there are in all queues that `f` counts.
  abbrev pub count_in : (T → ℕ) → List T → ℕ
  count_in f [] = 0
  count_in f (t ∷ ts) = f t + count_in f ts

  abbrev pub queued : (T → ℕ) → List (Channel T) → ℕ
  queued f [] = 0
  queued f (c ∷ cs) = count_in f c.queue + queued f cs

  count_in-append :
      (f : T → ℕ) (ts us : List T) → count_in f (ts ++ us) ≡ count_in f ts + count_in f us
  count_in-append f [] us = omega arith
  count_in-append f (t ∷ ts) us = omega (arith, count_in-append f ts us)

  queued-append :
      (f : T → ℕ) (cs ds : List (Channel T)) → queued f (cs ++ ds) ≡ queued f cs + queued f ds
  queued-append f [] ds = omega arith
  queued-append f (c ∷ cs) ds = omega (arith, queued-append f cs ds)

  queued-round_robin :
      (f : T → ℕ) (ts : List T) (cs : List (Channel T))
      → 0 < length cs
      → queued f (round_robin cs ts) ≡ queued f cs + count_in f ts
  queued-round_robin f [] cs h = omega arith
  queued-round_robin f (t ∷ ts) [] h = absurd (omega arith)
  queued-round_robin f (t ∷ ts) (c ∷ cs) h =
      let turned = cs ++ deliver c t ∷ [] in
      omega (
        arith,
        queued-round_robin f ts turned (omega (arith, length-append cs (deliver c t ∷ []))),
        queued-append f cs (deliver c t ∷ []),
        count_in-append f c.queue (t ∷ []),
      )

  new_recvs_lem :
      (n : ℕ) (s : Sender T)
      → All IsAlive s.senders
      → let s' = new_recvs n s in
        (s'.pos ≡ s.pos) × (length s'.senders ≡ length s.senders + n) × All IsAlive s'.senders
  unfolding new_recvs
  new_recvs_lem zero s live = (refl, omega arith, live)
  new_recvs_lem (suc n) s live =
      let (pos, len, all) =
        new_recvs_lem n (new_recv s) (All-append IsAlive s.senders _ live (refl, tt)) in
      (
        pos,
        omega (arith, len, length-append s.senders (record { alive = true; queue = [] } ∷ [])),
        all,
      )

  All-take : (n : ℕ) (cs : List (Channel T)) → All IsAlive cs → All IsAlive (take n cs)
  All-take zero cs h = tt
  All-take (suc n) [] h = tt
  All-take (suc n) (c ∷ cs) h = (h.0, All-take n cs h.1)

  All-drop : (n : ℕ) (cs : List (Channel T)) → All IsAlive cs → All IsAlive (drop n cs)
  All-drop zero cs h = h
  All-drop (suc n) [] h = tt
  All-drop (suc n) (c ∷ cs) h = All-drop n cs h.1

  -- The queue is ready once the threads have been started, if there is to be one.
  pub spawn-IsReady :
      (cfg : Config) → 0 < cfg.num_threads → cfg.num_threads < usize_mod → IsReady (spawn cfg)
  unfolding spawn
  spawn-IsReady cfg some_thread bounded =
      let (pos, len, live) = new_recvs_lem cfg.num_threads new tt in
      let s : Sender T = new_recvs cfg.num_threads new in
      record {
        inside = omega (arith, pos, len);
        bounded = omega (arith, len);
        live =
            All-append IsAlive (drop (suc s.pos) s.senders) (take (suc s.pos) s.senders)
              (All-drop (suc s.pos) s.senders live) (All-take (suc s.pos) s.senders live);
      }

module _ {Method Url : Type 0} where
  -- What the threads have been sent, and that nothing else has changed.
  abbrev pub Queues :
      List (ℕ × HttpRequest Method Url)
      → PythonThreads Method Url
      → Option (PythonThreads Method Url × Result RuntimeError (Unit {0}))
      → Type 0
  Queues reqs p result =
      (p' : PythonThreads Method Url) × (result ≡ some (p', ok tt))
      × (p'.queued_reqs ≡ p.queued_reqs)
      × (p'.num_pending_reqs ≡ p.num_pending_reqs + length reqs)
      × (p'.timed_out_reqs ≡ p.timed_out_reqs)
      × IsReady p'.req_send
      × (in_turn p'.req_send ≡ round_robin (in_turn p.req_send) reqs)

  send_each_step :
      (req : ℕ × HttpRequest Method Url) (reqs : List (ℕ × HttpRequest Method Url))
      (p : PythonThreads Method Url) (s : Sender (ℕ × HttpRequest Method Url))
      → send p.req_send req ≡ some (s, ok tt)
      → send_each (req ∷ reqs) p
        ≡ send_each reqs
            (record p { req_send = s; num_pending_reqs = add_usize p.num_pending_reqs 1 })
  unfolding send_each
  send_each_step req reqs p s e = rw (e, send_each) refl

  send_each-Queues :
      (reqs : List (ℕ × HttpRequest Method Url)) (p : PythonThreads Method Url)
      → IsReady p.req_send
      → p.num_pending_reqs + length reqs < usize_mod
      → Queues reqs p (send_each reqs p)
  unfolding send_each
  send_each-Queues [] p ready big = (p, refl, refl, omega arith, refl, ready, refl)
  send_each-Queues (req ∷ reqs) p ready big =
      let (s, sent, ready', turn) = send-in_turn p.req_send req ready in
      let one = add_usize_lem p.num_pending_reqs 1 (omega arith) in
      let (p', e, same, pending, late, ready'', turned) =
        send_each-Queues reqs
          (record p { req_send = s; num_pending_reqs = add_usize p.num_pending_reqs 1 }) ready'
          (omega (arith, one)) in
      (
        p',
        send_each_step req reqs p s sent ∙ e,
        same,
        omega (arith, pending, one),
        late,
        ready'',
        turned ∙ sym (turn reqs),
      )

  -- While the threads live, every request that is queued goes to one of them: they are sent in
  -- order, each to the thread whose turn it is, so that the turns are those of a round robin. The
  -- number of pending requests grows by as many, nothing stays queued, and no request is lost or
  -- doubled, whichever of them are counted.
  pub send_queued_requests-round_robin :
      (p : PythonThreads Method Url)
      → IsReady p.req_send
      → p.num_pending_reqs + length p.queued_reqs < usize_mod
      → (p' : PythonThreads Method Url) × (send_queued_requests p ≡ some (p', ok tt))
        × (p'.queued_reqs ≡ [])
        × (p'.num_pending_reqs ≡ p.num_pending_reqs + length p.queued_reqs)
        × (in_turn p'.req_send ≡ round_robin (in_turn p.req_send) p.queued_reqs)
        × ((f : ℕ × HttpRequest Method Url → ℕ)
            → queued f (in_turn p'.req_send)
              ≡ queued f (in_turn p.req_send) + count_in f p.queued_reqs)
  unfolding send_queued_requests
  send_queued_requests-round_robin p ready big =
      let (p', e, same, pending, late, ready', turned) =
        send_each-Queues p.queued_reqs (record p { queued_reqs = [] }) ready big in
      let size =
        length-ring p.req_send.senders (suc p.req_send.pos) (omega (arith, ready.inside)) in
      (
        p',
        e,
        same,
        pending,
        turned,
        λ f.
            ap (queued f) turned
            ∙ queued-round_robin f p.queued_reqs (in_turn p.req_send)
                (omega (arith, size, ready.inside)),
      )
