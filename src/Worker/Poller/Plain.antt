-- ===== src/Worker/Poller/Plain.antt =====
-- The events that a poller keeps: none of them is that a stream comes from the server.
use casket.Base.{
  OnSome, ℕ, ◌≡◌, refl, subst, inl, inr, Bool-cases, Option-cases, Option, none, some, List, [],
  ◌∷◌, ◌++◌, Result, arith, All, All-append, ltb, ◌==◌,
}
use casket.Base.Map.{Map, lookup, insert, remove}
use casket.Errors.{RuntimeError}
use casket.Worker.Events.{Event, ctrl_c, new_stream_fd}
use casket.Worker.Poller.{
  Poller, TimerEntry, MioEvent, Poll, ready, interrupted, failed, push, pop_due, take_read,
  take_write, take_events, tick, ◌>>=◌,
}

abbrev pub IsPlain : Event → Type 0
IsPlain (new_stream_fd fd) = ⊥
IsPlain ev = Unit

abbrev pub ArePlain : List (ℕ × Event) → Type 0
ArePlain = All (λ e. IsPlain e.1)

abbrev pub TimersPlain : List TimerEntry → Type 0
TimersPlain = All (λ e. IsPlain e.event)

pub record KeepsPlain (p : Poller) : Type 0 where
  pub reads : ArePlain p.events_reg_read
  pub writes : ArePlain p.events_reg_write
  pub timers : TimersPlain p.timerq

pub insert-ArePlain :
    (tk : ℕ) (ev : Event) (m : Map Event) → IsPlain ev → ArePlain m → ArePlain (insert tk ev m)
insert-ArePlain tk ev [] h hs = (h, tt)
insert-ArePlain tk ev ((j, w) ∷ m) h (h₁, hs) = elim (Bool-cases (j == tk)) [
  | inl e ↦ rw e (h, hs)
  | inr e ↦ rw e (h₁, insert-ArePlain tk ev m h hs)
]

remove-ArePlain : (tk : ℕ) (m : Map Event) → ArePlain m → ArePlain (remove tk m)
remove-ArePlain tk [] hs = tt
remove-ArePlain tk ((j, w) ∷ m) (h, hs) = elim (Bool-cases (j == tk)) [
  | inl e ↦ rw e hs
  | inr e ↦ rw e (h, remove-ArePlain tk m hs)
]

lookup-IsPlain :
    (tk : ℕ) (ev : Event) (m : Map Event) → ArePlain m → lookup tk m ≡ some ev → IsPlain ev
lookup-IsPlain tk ev [] hs e = absurd (cc)
lookup-IsPlain tk ev ((j, w) ∷ m) (h, hs) e = elim (Bool-cases (j == tk)) [
  | inl here ↦ let same : w ≡ ev = ground (arith, e, here) in subst IsPlain same h
  | inr there ↦
      let rest : lookup tk m ≡ some ev = ground (arith, e, there) in lookup-IsPlain tk ev m hs rest
]

pub push-TimersPlain :
    (e : TimerEntry) (q : List TimerEntry)
    → IsPlain e.event
    → TimersPlain q
    → TimersPlain (push e q)
unfolding push
push-TimersPlain e [] h hs = (h, tt)
push-TimersPlain e (t ∷ q) h (h₁, hs) = elim (Bool-cases (ltb e.timeout t.timeout)) [
  | inl l ↦ rw l (h, (h₁, hs))
  | inr l ↦ rw l (h₁, push-TimersPlain e q h hs)
]

pop_due-ArePlain :
    (now : ℕ) (q : List TimerEntry)
    → TimersPlain q
    → ArePlain (pop_due now q).0 × TimersPlain (pop_due now q).1
unfolding pop_due
pop_due-ArePlain now [] hs = (tt, tt)
pop_due-ArePlain now (e ∷ q) (h, hs) =
    let (due, rest) = pop_due-ArePlain now q hs in
    elim (Bool-cases (ltb now e.timeout)) [
      | inl l ↦ rw l (tt, (h, hs))
      | inr l ↦ rw l ((h, due), rest)
    ]

>>=-OnSome :
    {A B : Type 0} (P : A → Type 0) (Q : B → Type 0) (o : Option A) (f : A → Option B)
    → OnSome P o
    → ((a : A) → P a → OnSome Q (f a))
    → OnSome Q (o >>= f)
>>=-OnSome P Q none f h step = tt
>>=-OnSome P Q (some a) f h step = step a h

abbrev pub Plain : Poller × List (ℕ × Event) → Type 0
Plain (p, evs) = KeepsPlain p × ArePlain evs

take_read-Plain : (m : MioEvent) (p : Poller) → KeepsPlain p → OnSome Plain (take_read m p)
unfolding take_read
take_read-Plain m p h = elim (Bool-cases m.readable) [
  | inr unable ↦ rw unable (h, tt)
  | inl able ↦ elim (Option-cases (lookup m.token p.events_reg_read)) [
    | inl e ↦ rw (able, e) tt
    | inr (ev, e) ↦
        rw (able, e)
          (
            record {
              reads = remove-ArePlain m.token p.events_reg_read h.reads;
              writes = h.writes;
              timers = h.timers;
            },
            (lookup-IsPlain m.token ev p.events_reg_read h.reads e, tt),
          )
  ]
]

take_write-Plain : (m : MioEvent) (p : Poller) → KeepsPlain p → OnSome Plain (take_write m p)
unfolding take_write
take_write-Plain m p h = elim (Bool-cases m.writable) [
  | inr unable ↦ rw unable (h, tt)
  | inl able ↦ elim (Option-cases (lookup m.token p.events_reg_write)) [
    | inl e ↦ rw (able, e) tt
    | inr (ev, e) ↦
        rw (able, e)
          (
            record {
              reads = h.reads;
              writes = remove-ArePlain m.token p.events_reg_write h.writes;
              timers = h.timers;
            },
            (lookup-IsPlain m.token ev p.events_reg_write h.writes e, tt),
          )
  ]
]

take_events-Plain :
    (ms : List MioEvent) (p : Poller) → KeepsPlain p → OnSome Plain (take_events ms p)
unfolding take_events
take_events-Plain [] p h = (h, tt)
take_events-Plain (m ∷ ms) p h =
    >>=-OnSome Plain Plain (take_read m p) _ (take_read-Plain m p h) (λ a (h₁, reads).
      >>=-OnSome Plain Plain (take_write m a.0) _ (take_write-Plain m a.0 h₁) (λ b (h₂, writes).
        >>=-OnSome Plain Plain (take_events ms b.0) _ (take_events-Plain ms b.0 h₂) (λ c (h₃, rest).
          (h₃, All-append _ a.1 (b.1 ++ c.1) reads (All-append _ b.1 c.1 writes rest)))))

-- The events of a tick: those that were waiting, and behind them others, which do not come from the
-- server.
abbrev pub Ticks :
    List (ℕ × Event) → Poller × List (ℕ × Event) × Result RuntimeError (Unit {0}) → Type 0
Ticks events (p, out, r) =
    KeepsPlain p × ((more : List (ℕ × Event)) × (out ≡ events ++ more) × ArePlain more)

pub tick-Ticks :
    (now : ℕ) (answer : Poll) (p : Poller) (events : List (ℕ × Event))
    → KeepsPlain p
    → OnSome (Ticks events) (tick now answer p events)
unfolding tick
tick-Ticks now (failed e) p events h =
    let (due, rest) = pop_due-ArePlain now p.timerq h.timers in
    (
      record { reads = h.reads; writes = h.writes; timers = rest },
      ((pop_due now p.timerq).0, refl, due),
    )
tick-Ticks now interrupted p events h =
    let (due, rest) = pop_due-ArePlain now p.timerq h.timers in
    (
      record { reads = h.reads; writes = h.writes; timers = rest },
      (
        (pop_due now p.timerq).0 ++ (0, ctrl_c) ∷ [],
        refl,
        All-append _ (pop_due now p.timerq).0 ((0, ctrl_c) ∷ []) due (tt, tt),
      ),
    )
tick-Ticks now (ready ms) p events h =
    let (due, rest) = pop_due-ArePlain now p.timerq h.timers in
    let p' : Poller = record p { timerq = (pop_due now p.timerq).1 } in
    >>=-OnSome Plain (Ticks events) (take_events ms p') _
      (take_events-Plain ms p' (record { reads = h.reads; writes = h.writes; timers = rest }))
      (λ a (h', evs). (
        h',
        ((pop_due now p.timerq).0 ++ a.1, refl, All-append _ (pop_due now p.timerq).0 a.1 due evs),
      ))
