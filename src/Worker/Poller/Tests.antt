-- ===== src/Worker/Poller/Tests.antt =====
-- Three timers, of which two are due, and a stream that can be read.
use casket.Base.{ℕ, ◌≡◌, refl, true, false, some, List, [], ◌∷◌, ◌++◌, ok, arith}
use casket.Worker.Events.{Event, request_read_timeout, python_code_timeout, server_stream_read}
use casket.Worker.Poller.{
  Poller, ready, new, timer_event, push, expect_read, tick, pop_due, take_events, take_read,
  take_write,
}
use casket.Worker.Poller.Tick.{tick-Due}
use casket.Worker.Poller.Timers.{Due}

abbrev three : Poller
unfolding new timer_event push expect_read
three = expect_read 5 server_stream_read (
    timer_event 7 90 python_code_timeout
      (timer_event 6 10 request_read_timeout (timer_event 5 40 request_read_timeout new)))

abbrev after : Poller
unfolding three
after = record three {
  events_reg_read = [];
  timerq = record { token = 7; timeout = 90; event = python_code_timeout } ∷ [];
}

abbrev events : List (ℕ × Event)
events = (6, request_read_timeout) ∷ (5, request_read_timeout) ∷ (5, server_stream_read) ∷ []

ticks :
    tick 50 (ready (record { token = 5; readable = true; writable = false } ∷ [])) three []
    ≡ some (after, events, ok tt)
unfolding three after tick pop_due take_events take_read take_write
ticks = refl

tick-Due_example :
    (due sockets : List (ℕ × Event)) × (events ≡ [] ++ (due ++ sockets))
    × Due 50 three.timerq due after.timerq
unfolding three after
tick-Due_example =
    tick-Due 50 (ready (record { token = 5; readable = true; writable = false } ∷ [])) three after
      [] events (ok tt) ((omega arith, (omega arith, tt)), ((omega arith, tt), (tt, tt))) ticks
