-- ===== src/Worker/Poller.antt =====
-- src/worker/poller.rs: which event a token stands for, and the timers.
-- Times are nanoseconds. The heap of timers stands as the list in which it pops; among timers with
-- one time the oldest comes first, which the library does not promise. A `none` is a panic.
pub mod Timers
pub mod Tick
pub mod Plain
pub mod Tests
use casket.Base.{
  ℕ, ◌+◌, ◌-◌, ◌*◌, ◌^◌, Bool, true, false, Option, none, some, List, [], ◌∷◌, ◌++◌, Bytes, codes,
  Result, ok, err, ltb, if◌then◌else◌,
}
use casket.Base.Map.{Map, lookup, insert, remove}
use casket.Errors.{RuntimeError, fatal_io_error}
use casket.Worker.Events.{Event, ctrl_c}

pub record TimerEntry : Type 0 where
  pub token : ℕ
  pub timeout : ℕ
  pub event : Event

pub record Poller : Type 0 where
  pub events_reg_read : Map Event
  pub events_reg_write : Map Event
  pub timerq : List TimerEntry

unfoldable pub new : Poller
new = record { events_reg_read = []; events_reg_write = []; timerq = [] }

-- `BinaryHeap::push`.
unfoldable pub push : TimerEntry → List TimerEntry → List TimerEntry
push e [] = e ∷ []
push e (f ∷ q) = if ltb e.timeout f.timeout then e ∷ f ∷ q else f ∷ push e q

unfoldable pub timer_event : ℕ → ℕ → Event → Poller → Poller
unfolding push
timer_event token timeout event p = record p {
  timerq = push (record { token = token; timeout = timeout; event = event }) p.timerq;
}

-- The methods that register insert, whatever mio then answers.
unfoldable pub expect_read : ℕ → Event → Poller → Poller
expect_read tk ev p = record p { events_reg_read = insert tk ev p.events_reg_read }

unfoldable pub expect_write : ℕ → Event → Poller → Poller
expect_write tk ev p = record p { events_reg_write = insert tk ev p.events_reg_write }

abbrev pub register_read : ℕ → Event → Poller → Poller
register_read = expect_read

abbrev pub reregister_read : ℕ → Event → Poller → Poller
reregister_read = expect_read

abbrev pub register_write : ℕ → Event → Poller → Poller
register_write = expect_write

abbrev pub reregister_write : ℕ → Event → Poller → Poller
reregister_write = expect_write

unfoldable pub reregister_rw : ℕ → Event → Event → Poller → Poller
reregister_rw tk read_ev write_ev p = record p {
  events_reg_read = insert tk read_ev p.events_reg_read;
  events_reg_write = insert tk write_ev p.events_reg_write;
}

-- How long `poll` may sleep: `none` is for ever.
unfoldable pub poll_timeout : ℕ → Option ℕ → List TimerEntry → Option ℕ
poll_timeout now (some t) q = some t
poll_timeout now none [] = none
poll_timeout now none (e ∷ q) =
    if ltb e.timeout now then some (20 * 10 ^ 6) else some (e.timeout - now)

-- The timers that are due, and the others.
unfoldable pub pop_due : ℕ → List TimerEntry → List (ℕ × Event) × List TimerEntry
pop_due now [] = ([], [])
pop_due now (e ∷ q) =
    let (due, rest) = pop_due now q in
    if ltb now e.timeout then ([], e ∷ q) else ((e.token, e.event) ∷ due, rest)

pub record MioEvent : Type 0 where
  pub token : ℕ
  pub readable : Bool
  pub writable : Bool

pub data Poll : Type 0 where
  ready : List MioEvent → Poll
  interrupted : Poll
  failed : Bytes → Poll

abbrev pub take_event : ℕ → Map Event → Option (Map Event × Event)
take_event tk m = elim (lookup tk m) [ none ↦ none | some ev ↦ some (remove tk m, ev) ]

unfoldable pub take_read : MioEvent → Poller → Option (Poller × List (ℕ × Event))
take_read m p =
    if m.readable
    then elim (take_event m.token p.events_reg_read) [
      | none ↦ none
      | some (reg, ev) ↦ some (record p { events_reg_read = reg }, (m.token, ev) ∷ [])
    ]
    else some (p, [])

unfoldable pub take_write : MioEvent → Poller → Option (Poller × List (ℕ × Event))
take_write m p =
    if m.writable
    then elim (take_event m.token p.events_reg_write) [
      | none ↦ none
      | some (reg, ev) ↦ some (record p { events_reg_write = reg }, (m.token, ev) ∷ [])
    ]
    else some (p, [])

infixl 5 ◌>>=◌
abbrev pub ◌>>=◌ : {A B : Type 0} → Option A → (A → Option B) → Option B
none >>= f = none
some a >>= f = f a

unfoldable pub take_events : List MioEvent → Poller → Option (Poller × List (ℕ × Event))
unfolding take_read take_write
take_events [] p = some (p, [])
take_events (m ∷ ms) p = do
  (p, reads) ← take_read m p
  (p, writes) ← take_write m p
  (p, rest) ← take_events ms p
  some (p, reads ++ (writes ++ rest))

-- `now` is the clock's, and `answer` is what mio's `poll` gives.
unfoldable pub tick :
    ℕ
    → Poll
    → Poller
    → List (ℕ × Event)
    → Option (Poller × List (ℕ × Event) × Result RuntimeError (Unit {0}))
unfolding pop_due take_events
tick now answer p events =
    let (due, rest) = pop_due now p.timerq in
    let p' : Poller = record p { timerq = rest } in
    elim answer [
      | failed e ↦ some (p', events ++ due, err (fatal_io_error (codes "worker failed to poll") e))
      | interrupted ↦ some (p', events ++ (due ++ (0, ctrl_c) ∷ []), ok tt)
      | ready ms ↦ do (p'', evs) ← take_events ms p'; some (p'', events ++ (due ++ evs), ok tt)
    ]
