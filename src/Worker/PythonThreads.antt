-- ===== src/Worker/PythonThreads.antt =====
-- src/worker/pythonthreads.rs: the requests that are with the Python threads.
-- What the two channels from the threads hold is an argument. A result of `none` is a panic.
pub mod Pending
use casket.Base.{
  ℕ, ◌+◌, Bool, true, false, not, Option, none, some, List, [], ◌∷◌, ◌++◌, map, Result, ok, err,
  ◌==◌, if◌then◌else◌, is_empty, add_usize, sub_usize,
}
use casket.Errors.{RuntimeError, python_threads_died}
use casket.Http.{HttpRequest, HttpResponse}
use casket.Worker.Actions.{
  Action, ActionResult, server_new_response, server_python_code_timeout_new,
}
use casket.Workq.{Sender}
use casket.Workq

-- `HashSet::contains` and `HashSet::remove`.
abbrev pub has_token : ℕ → List ℕ → Bool
has_token tk [] = false
has_token tk (t ∷ ts) = if t == tk then true else has_token tk ts

abbrev pub remove_token : ℕ → List ℕ → List ℕ
remove_token tk [] = []
remove_token tk (t ∷ ts) = if t == tk then ts else t ∷ remove_token tk ts

abbrev pub insert_token : ℕ → List ℕ → List ℕ
insert_token tk ts = if has_token tk ts then ts else tk ∷ ts

pub record PythonThreads (Method Url : Type 0) : Type 0 where
  pub queued_reqs : List (ℕ × HttpRequest Method Url)
  pub num_pending_reqs : ℕ
  pub req_send : Sender (ℕ × HttpRequest Method Url)
  pub timed_out_reqs : List ℕ

-- What `try_recv` finds in a channel: its messages, and whether all senders have gone.
pub record Inbox (A : Type 0) : Type 0 where
  pub messages : List A
  pub disconnected : Bool

abbrev pub died_if : Bool → Result RuntimeError (Unit {0})
died_if gone = if gone then err python_threads_died else ok tt

module _ {Method Url : Type 0} where
  unfoldable pub new : Sender (ℕ × HttpRequest Method Url) → PythonThreads Method Url
  new req_send = record {
    queued_reqs = [];
    num_pending_reqs = 0;
    req_send = req_send;
    timed_out_reqs = [];
  }

  unfoldable pub queue_http_req :
      ℕ → HttpRequest Method Url → PythonThreads Method Url → PythonThreads Method Url
  queue_http_req tk req p = record p { queued_reqs = p.queued_reqs ++ (tk, req) ∷ [] }

  abbrev pub has_queued_reqs : PythonThreads Method Url → Bool
  has_queued_reqs p = not (is_empty p.queued_reqs)

  -- The loop of `send_queued_requests`; an error drops what is left.
  unfoldable pub send_each :
      List (ℕ × HttpRequest Method Url)
      → PythonThreads Method Url
      → Option (PythonThreads Method Url × Result RuntimeError (Unit {0}))
  send_each [] p = some (p, ok tt)
  send_each (req ∷ reqs) p = elim (Workq.send p.req_send req) [
    | none ↦ none
    | some (s, err _) ↦ some (record p { req_send = s }, err python_threads_died)
    | some (s, ok _) ↦
        send_each reqs
          (record p { req_send = s; num_pending_reqs = add_usize p.num_pending_reqs 1 })
  ]

  unfoldable pub send_queued_requests :
      PythonThreads Method Url → Option (PythonThreads Method Url × Result RuntimeError (Unit {0}))
  unfolding send_each
  send_queued_requests p = send_each p.queued_reqs (record p { queued_reqs = [] })

  unfoldable pub timeout_request : ℕ → PythonThreads Method Url → PythonThreads Method Url
  timeout_request tk p = record p { timed_out_reqs = insert_token tk p.timed_out_reqs }

  -- A start of the application's code: the token, and the time.
  abbrev pub code_start : ℕ × ℕ → ActionResult Method Url
  code_start (tk, st) = ok (server_python_code_timeout_new tk st)

  -- One response.
  unfoldable pub take_response :
      ℕ × HttpResponse Method Url
      → PythonThreads Method Url
      → PythonThreads Method Url × List (ActionResult Method Url)
  take_response (tk, resp) p =
      if has_token tk p.timed_out_reqs
      then (
        record p {
          timed_out_reqs = remove_token tk p.timed_out_reqs;
          num_pending_reqs = sub_usize p.num_pending_reqs 1;
        },
        [],
      )
      else (
        record p { num_pending_reqs = sub_usize p.num_pending_reqs 1 },
        ok (server_new_response tk resp) ∷ [],
      )

  unfoldable pub take_each :
      List (ℕ × HttpResponse Method Url)
      → PythonThreads Method Url
      → PythonThreads Method Url × List (ActionResult Method Url)
  unfolding take_response
  take_each [] p = (p, [])
  take_each (r ∷ rs) p =
      let (p', results) = take_response r p in
      let (p'', rest) = take_each rs p' in (p'', results ++ rest)

  unfoldable pub take_responses :
      Inbox (ℕ × ℕ)
      → Inbox (ℕ × HttpResponse Method Url)
      → PythonThreads Method Url
      → PythonThreads Method Url × List (ActionResult Method Url) × Result RuntimeError (Unit {0})
  unfolding take_each
  take_responses starts responses p =
      let started = map code_start starts.messages in
      let (p', taken) = take_each responses.messages p in
      if starts.disconnected
      then (p, started, err python_threads_died)
      else (p', started ++ taken, died_if responses.disconnected)
