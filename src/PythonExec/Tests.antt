-- ===== src/PythonExec/Tests.antt =====
-- A thread at concrete inputs: an application that answers one path and raises for any other.
use casket.Base.{
  ◌+◌, arith, ok, ℕ, ◌+◌, ◌-◌, ◌*◌, ◌≡◌, true, none, some, List, [], ◌∷◌, Bytes, codes, ok, get_or,
  drop, take, length, eq_bytes, if◌then◌else◌,
}
use casket.Config.{Config, default}
use casket.Http.{HttpRequest}
use casket.Logger.{level_info}
use casket.Python.{new_err}
use casket.PythonExec.{Received}
use casket.PythonExec.Spawned.{
  IsReady, in_turn, round_robin, queued, count_in, spawn-IsReady, send_queued_requests-round_robin,
}
use casket.PythonExec.{spawn}
use casket.ReqLocal.{ReqLocal}
use casket.Worker.PythonThreads
use casket.Worker.PythonThreads.{PythonThreads, send_queued_requests}
use casket.Wsgi.Environ.{Environ, HttpTypes, get_item, str}
use casket.Wsgi.Execute.{Call, call_start_response, call_log, returns, raises}
use casket.Wsgi.StartResponse.{ParseResponse}

-- Three digits behind `HTTP/1.1 `, and what stands behind them up to the line's end.
abbrev parse : ParseResponse
parse line = some (
  some (100 * (get_or line 9 0 - 48) + 10 * (get_or line 10 0 - 48) + (get_or line 11 0 - 48)),
  some (take (length line - 15) (drop 13 line)),
)

abbrev types : HttpTypes Bytes Bytes
types = record { method_text = λ m. m; path = λ u. u; query = λ u. none }

abbrev server : Bytes × ℕ
server = (codes "casket", 8080)

abbrev greets : Call
greets = call_start_response (codes "200 OK") [] (λ _.
    call_log level_info (codes "hello") none
      (λ _. returns (record { chunks = ok (codes "hi") ∷ []; ends = true })))

abbrev app : Environ → Call
app environ = elim (get_item (codes "PATH_INFO") environ) [
  | some (str path) ↦
      if eq_bytes path (codes "/") then greets else raises (new_err (codes "no such path"))
  | _ ↦ raises (new_err (codes "no path"))
]

abbrev request : Bytes → HttpRequest Bytes Bytes
request url = record {
  method = codes "get";
  url = url;
  headers = (codes "X-Id", codes "1") ∷ (codes "x_id", codes "2") ∷ [];
  context = record { trace_id = codes "t"; span_id = codes "s"; parent_id = none };
  keep_alive = true;
  content_type = none;
  content_length = 0;
  body = none;
}

abbrev received : ℕ → Bytes → Received Bytes Bytes
received key url = record {
  key = key;
  http_req = request url;
  now = 7;
  starts_alive = true;
  responses_alive = true;
}

abbrev cfg : Config
cfg = default none

abbrev two_requests : List (Received Bytes Bytes)
two_requests = received 5 (codes "/") ∷ received 6 (codes "/x") ∷ []

-- Three requests for the two threads of the default.
abbrev threads : PythonThreads Bytes Bytes
threads = record (PythonThreads.new (spawn cfg)) {
  queued_reqs =
      (5, request (codes "/")) ∷ (6, request (codes "/x")) ∷ (7, request (codes "/")) ∷ [];
}

threads-IsReady : IsReady (threads.req_send)
unfolding default PythonThreads.new
threads-IsReady = spawn-IsReady cfg (omega arith) (omega arith)

send_queued_requests-round_robin_example :
    (p' : PythonThreads Bytes Bytes) × (send_queued_requests threads ≡ some (p', ok tt))
    × (p'.queued_reqs ≡ [])
    × (p'.num_pending_reqs ≡ threads.num_pending_reqs + 3)
    × (in_turn p'.req_send ≡ round_robin (in_turn threads.req_send) threads.queued_reqs)
    × ((f : ℕ × HttpRequest Bytes Bytes → ℕ)
        → queued f (in_turn p'.req_send)
          ≡ queued f (in_turn threads.req_send) + count_in f threads.queued_reqs)
unfolding PythonThreads.new
send_queued_requests-round_robin_example =
    send_queued_requests-round_robin threads threads-IsReady (omega arith)
