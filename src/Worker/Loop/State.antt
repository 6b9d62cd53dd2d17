-- ===== src/Worker/Loop/State.antt =====
-- The variables of `run_worker`, and what the operating system and the threads answer.
use casket.Base.{ℕ, Bool, Option, none, some, List, [], ◌∷◌, ◌++◌, Bytes, Result, ok, err}
use casket.Errors.{RuntimeError, fatal_io_error}
use casket.Http.{HttpResponse}
use casket.Worker.Actions.{ActionResult}
use casket.Worker.Events.{Event, Timeout}
use casket.Worker.Poller.{Poll}
use casket.Worker.PythonThreads.{Inbox}
use casket.Worker.Reader.{Random}
use casket.Worker.{Worker}

abbrev pub unix_stream_token : ℕ
unix_stream_token = 0

abbrev pub no_token : ℕ
no_token = 1

-- What the streams and the threads answer to one event.
pub record Io (Method Url : Type 0) : Type 0 where
  pub unix_read : Result Bytes Bytes
  pub unix_fds : List ℕ
  pub unix_write : Result Bytes ℕ
  pub tcp_read : Result Bytes Bytes
  pub tcp_write : Result Bytes ℕ
  pub starts : Inbox (ℕ × ℕ)
  pub responses : Inbox (ℕ × HttpResponse Method Url)
  pub random : Random

-- The variables of the loop.
pub record Round (Method Url : Type 0) : Type 0 where
  pub worker : Worker Method Url
  pub results : List (ActionResult Method Url)
  pub timeouts : List (ℕ × Timeout)
  pub closing : Bool

-- mio's answers to the calls for the results, in their order, and to those for one token.
pub record Turn (Method Url : Type 0) : Type 0 where
  pub now : ℕ
  pub poll : Poll
  pub io : ℕ → Event → Io Method Url
  pub registry : ℕ → Result Bytes (Unit {0})
  pub timeout_registry : ℕ → Result Bytes (Unit {0})
  pub deregister : ℕ → Result Bytes (Unit {0})
  pub unix_registry : Result Bytes (Unit {0})

-- A step of the loop goes on, ends the worker with `Ok(())`, or with an error.
pub data Outcome (Method Url : Type 0) : Type 0 where
  next : Round Method Url → Outcome Method Url
  stopped : Outcome Method Url
  failed : RuntimeError → Outcome Method Url

abbrev pub and_then :
    {Method Url : Type 0}
    → Option (Outcome Method Url)
    → (Round Method Url → Option (Outcome Method Url))
    → Option (Outcome Method Url)
and_then none f = none
and_then (some (next r)) f = f r
and_then (some stopped) f = some stopped
and_then (some (failed e)) f = some (failed e)

-- `?`.
abbrev pub or_fail :
    {Method Url : Type 0} → Result RuntimeError (Unit {0}) → Round Method Url → Outcome Method Url
or_fail (ok _) r = next r
or_fail (err e) r = failed e

abbrev pub fatal_io : Bytes → Result Bytes (Unit {0}) → Result RuntimeError (Unit {0})
fatal_io why (ok _) = ok tt
fatal_io why (err e) = err (fatal_io_error why e)

module _ {Method Url : Type 0} where
  abbrev pub push_result : ActionResult Method Url → Round Method Url → Round Method Url
  push_result a r = record r { results = r.results ++ a ∷ [] }

  abbrev pub set_worker : Worker Method Url → Round Method Url → Round Method Url
  set_worker w r = record r { worker = w }
