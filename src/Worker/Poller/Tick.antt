-- ===== src/Worker/Poller/Tick.antt =====
-- What a tick hands to the worker.
use casket.Base.{
  ℕ, ◌≡◌, refl, sym, ap, subst, append-nil, ◌∙◌, Option, none, some, List, [], ◌∷◌, ◌++◌, Result,
  arith,
}
use casket.Errors.{RuntimeError}
use casket.Worker.Events.{Event, ctrl_c}
use casket.Worker.Poller.{
  Poller, MioEvent, Poll, ready, interrupted, failed, pop_due, take_read, take_write, take_events,
  tick, ◌>>=◌,
}
use casket.Worker.Poller.Timers.{Due, IsSorted, pop_due-Due}

take_read-timerq :
    (m : MioEvent) (p p' : Poller) (evs : List (ℕ × Event))
    → take_read m p ≡ some (p', evs)
    → p'.timerq ≡ p.timerq
unfolding take_read
take_read-timerq m p p' evs h = ground arith

take_write-timerq :
    (m : MioEvent) (p p' : Poller) (evs : List (ℕ × Event))
    → take_write m p ≡ some (p', evs)
    → p'.timerq ≡ p.timerq
unfolding take_write
take_write-timerq m p p' evs h = ground arith

pub bind_inv :
    {A B : Type 0} (o : Option A) (f : A → Option B) (b : B)
    → o >>= f ≡ some b
    → (a : A) × (o ≡ some a) × (f a ≡ some b)
bind_inv none f b h = ground arith
bind_inv (some a) f b h = (a, refl, h)

take_events-timerq :
    (ms : List MioEvent) (p p' : Poller) (evs : List (ℕ × Event))
    → take_events ms p ≡ some (p', evs)
    → p'.timerq ≡ p.timerq
unfolding take_events
take_events-timerq [] p p' evs h = ground arith
take_events-timerq (m ∷ ms) p p' evs h =
    let ((p₁, reads), e₁, h₁) = bind_inv (take_read m p) _ (p', evs) h in
    let ((p₂, writes), e₂, h₂) = bind_inv (take_write m p₁) _ (p', evs) h₁ in
    let ((p₃, rest), e₃, h₃) = bind_inv (take_events ms p₂) _ (p', evs) h₂ in
    let last : p'.timerq ≡ p₃.timerq = ground arith in
    last
    ∙ take_events-timerq ms p₂ p₃ rest e₃
    ∙ take_write-timerq m p₁ p₂ writes e₂
    ∙ take_read-timerq m p p₁ reads e₁

-- Whatever mio's `poll` answers, a tick that does not panic puts all timers that are due, and no
-- other, in order behind the events that were waiting, before those of the sockets, and keeps the
-- others.
pub tick-Due :
    (now : ℕ) (answer : Poll) (p p' : Poller) (events out : List (ℕ × Event))
    (r : Result RuntimeError (Unit {0}))
    → IsSorted p.timerq
    → tick now answer p events ≡ some (p', out, r)
    → (due sockets : List (ℕ × Event)) × (out ≡ events ++ (due ++ sockets))
      × Due now p.timerq due p'.timerq
unfolding tick
tick-Due now (failed e) p p' events out r sorted h =
    let (due, rest) = pop_due now p.timerq in
    let all : out ≡ events ++ due = ground arith in
    let left : p'.timerq ≡ rest = ground arith in
    (
      due,
      [],
      all ∙ ap (λ d. events ++ d) (sym (append-nil due)),
      subst (Due now p.timerq due) (sym left) (pop_due-Due now p.timerq sorted),
    )
tick-Due now interrupted p p' events out r sorted h =
    let (due, rest) = pop_due now p.timerq in
    let all : out ≡ events ++ (due ++ (0, ctrl_c) ∷ []) = ground arith in
    let left : p'.timerq ≡ rest = ground arith in
    (
      due,
      (0, ctrl_c) ∷ [],
      all,
      subst (Due now p.timerq due) (sym left) (pop_due-Due now p.timerq sorted),
    )
tick-Due now (ready ms) p p' events out r sorted h =
    let (due, rest) = pop_due now p.timerq in
    let ((p₁, evs), e₁, h₁) =
      bind_inv (take_events ms (record p { timerq = rest })) _ (p', out, r) h in
    let all : out ≡ events ++ (due ++ evs) = ground arith in
    let same : p'.timerq ≡ p₁.timerq = ground arith in
    let left = same ∙ take_events-timerq ms (record p { timerq = rest }) p₁ evs e₁ in
    (due, evs, all, subst (Due now p.timerq due) (sym left) (pop_due-Due now p.timerq sorted))
