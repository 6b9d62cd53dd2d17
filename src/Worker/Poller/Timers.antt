-- ===== src/Worker/Poller/Timers.antt =====
-- The timers come in order, and none is late or lost.
use casket.Base.{
  ℕ, ◌≤◌, ◌<◌, ◌≡◌, refl, sym, ap, subst, Bool-cases, inl, inr, true, false, List, [], ◌∷◌, ◌++◌,
  map, All, arith, ltb, ltb→lt, ltb→le,
}
use casket.Worker.Events.{Event}
use casket.Worker.Poller.{TimerEntry, push, pop_due}

abbrev pub IsSorted : List TimerEntry → Type 0
IsSorted [] = Unit
IsSorted (e ∷ q) = All (λ f. e.timeout ≤ f.timeout) q × IsSorted q

abbrev pub fired : TimerEntry → ℕ × Event
fired e = (e.token, e.event)

All-le :
    (a b : ℕ) (q : List TimerEntry)
    → a ≤ b
    → All (λ f. b ≤ f.timeout) q
    → All (λ f. a ≤ f.timeout) q
All-le a b [] h hs = tt
All-le a b (e ∷ q) h (h', hs) = (omega arith, All-le a b q h hs)

push-All :
    (a : ℕ) (e : TimerEntry) (q : List TimerEntry)
    → a ≤ e.timeout
    → All (λ f. a ≤ f.timeout) q
    → All (λ f. a ≤ f.timeout) (push e q)
unfolding push
push-All a e [] h hs = (h, tt)
push-All a e (f ∷ q) h (h', hs) = elim (Bool-cases (ltb e.timeout f.timeout)) [
  | inl t ↦ rw (t, push) (h, (h', hs))
  | inr t ↦ rw (t, push) (h', push-All a e q h hs)
]

pub push-IsSorted : (e : TimerEntry) (q : List TimerEntry) → IsSorted q → IsSorted (push e q)
unfolding push
push-IsSorted e [] h = (tt, tt)
push-IsSorted e (f ∷ q) (h, hs) = elim (Bool-cases (ltb e.timeout f.timeout)) [
  | inl t ↦
      let early = ltb→lt e.timeout f.timeout t in
      rw (t, push) ((omega arith, All-le e.timeout f.timeout q (omega arith) h), (h, hs))
  | inr t ↦
      let late = ltb→le e.timeout f.timeout t in
      rw (t, push) (push-All f.timeout e q late h, push-IsSorted e q hs)
]

pub record Due (now : ℕ) (q : List TimerEntry) (out : List (ℕ × Event)) (rest : List TimerEntry)
    : Type 0 where
  pub due : List TimerEntry
  pub whole : q ≡ due ++ rest
  pub events : out ≡ map fired due
  pub late : All (λ e. e.timeout ≤ now) due
  pub early : All (λ e. now < e.timeout) rest
  pub sorted : IsSorted rest

All-early :
    (now : ℕ) (e : TimerEntry) (q : List TimerEntry)
    → now < e.timeout
    → All (λ f. e.timeout ≤ f.timeout) q
    → All (λ f. now < f.timeout) q
All-early now e [] h hs = tt
All-early now e (f ∷ q) h (h', hs) = (omega arith, All-early now e q h hs)

pop_due_stop :
    (now : ℕ) (e : TimerEntry) (q : List TimerEntry)
    → ltb now e.timeout ≡ true
    → pop_due now (e ∷ q) ≡ ([], e ∷ q)
unfolding pop_due
pop_due_stop now e q h = ground arith

pop_due_step :
    (now : ℕ) (e : TimerEntry) (q : List TimerEntry)
    → ltb now e.timeout ≡ false
    → pop_due now (e ∷ q) ≡ (fired e ∷ (pop_due now q).0, (pop_due now q).1)
unfolding pop_due
pop_due_step now e q h = ground arith

-- The loop pops the timers that are due, and they are all and the first.
pub pop_due-Due :
    (now : ℕ) (q : List TimerEntry) → IsSorted q → Due now q (pop_due now q).0 (pop_due now q).1
unfolding pop_due
pop_due-Due now [] h = record {
  due = [];
  whole = refl;
  events = refl;
  late = tt;
  early = tt;
  sorted = tt;
}
pop_due-Due now (e ∷ q) (h, hs) = elim (Bool-cases (ltb now e.timeout)) [
  | inl t ↦
      let early = ltb→lt now e.timeout t in
      subst (λ r. Due now (e ∷ q) r.0 r.1) (sym (pop_due_stop now e q t))
        (record {
          due = [];
          whole = refl;
          events = refl;
          late = tt;
          early = (early, All-early now e q early h);
          sorted = (h, hs);
        })
  | inr t ↦
      let d = pop_due-Due now q hs in
      subst (λ r. Due now (e ∷ q) r.0 r.1) (sym (pop_due_step now e q t))
        (record {
          due = e ∷ d.due;
          whole = ap (◌∷◌ e) d.whole;
          events = ap (◌∷◌ (fired e)) d.events;
          late = (ltb→le now e.timeout t, d.late);
          early = d.early;
          sorted = d.sorted;
        })
]
