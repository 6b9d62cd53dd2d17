-- ===== src/Worker/Tests.antt =====
-- A worker with one stream, 5, of token 16777216, whose descriptor at the server is 9.
use casket.Base.{OnSome, ℕ, ◌≡◌, refl, true, false, none, some, List, [], ◌∷◌, codes, ok, arith}
use casket.Config.{Config, default}
use casket.Http.{bad_value, HttpResponse}
use casket.Msgs.Example.{response_format}
use casket.Msgs.WorkerBuffer
use casket.Msgs.Wire.{response_frame}
use casket.Worker.Actions.{
  Action, ActionResult, Error, server_new_response, server_python_code_timeout_new, CasketResponse,
  server_casket_response_new,
}
use casket.Base.Map.{lookup}
use casket.Worker.Events.{python_code}
use casket.Worker.Loop.{Turn, Round, next, set_worker, handle_timeout}
use casket.Worker.Loop.Late.{handle_timeout-late, Is504}
use casket.Worker.Poller.{ready}
use casket.Worker.Handed.{Hands, waits, handle_action-Hands, handle_error-tells}
use casket.Worker.Poller
use casket.Worker.PythonThreads
use casket.Worker.PythonThreads.{PythonThreads, take_each, take_response}
use casket.Worker.PythonThreads.Pending.{take_each-Forwards, forward}
use casket.Worker.{Worker, handle_action, handle_error}

abbrev cfg : Config
unfolding default
cfg = default none

abbrev response : HttpResponse ℕ ℕ
response = record {
  method = 0;
  url = 0;
  code = 200;
  reason = codes "OK";
  context = record { trace_id = codes "ab"; span_id = codes "cd"; parent_id = none };
  keep_alive = true;
  req_headers = [];
  req_content_length = 0;
  resp_headers = [];
  resp_content_length = none;
  resp_body = some (record { parts = []; connected = true });
}

abbrev worker : Worker ℕ ℕ
unfolding WorkerBuffer.new Poller.new PythonThreads.new
worker = record {
  msg_buf = record WorkerBuffer.new { server_fds = (16777216, 9) ∷ [] };
  poll = Poller.new;
  python_threads = PythonThreads.new (record { pos = 0; senders = [] });
  server_reading_streams = [];
  server_pending_streams = (16777216, 5) ∷ [];
  server_writing_streams = [];
  server_casket_responses = [];
}

abbrev action : Action ℕ ℕ
action = server_new_response 16777216 response

handle_action-Hands_example :
    Hands response_format
      (waits response_format action)
      16777216
      9
      worker.msg_buf
      (handle_action response_format cfg 0 (ok tt) action worker)
unfolding worker
handle_action-Hands_example =
    handle_action-Hands response_format cfg 0 (ok tt) action worker 9 refl refl tt

abbrev error : Error
error = record {
  error = bad_value (codes "header value not utf8");
  token = 16777216;
  tcp_stream = 5;
}

handle_error-tells_example :
    handle_error response_format (ok tt) error worker
    ≡ some (record worker {
      msg_buf = record (worker.msg_buf) {
        server_fds = [];
        write_buffer = response_frame response_format (record {
          token = 16777216;
          fd = 9;
          keep_alive = false;
          error = some (codes "badly formed client request");
        });
      };
    })
unfolding worker WorkerBuffer.new
handle_error-tells_example = handle_error-tells response_format (ok tt) error worker 9 refl

-- Two requests are pending, of which the first has timed out.
abbrev threads : PythonThreads ℕ ℕ
unfolding worker
threads = record (worker.python_threads) { num_pending_reqs = 2; timed_out_reqs = 7 ∷ [] }

take_each-Forwards_example :
    let (p', results) = take_each ((7, response) ∷ (8, response) ∷ []) threads in
    (results ≡ forward (7 ∷ []) ((7, response) ∷ (8, response) ∷ []))
    × (p'.num_pending_reqs ≡ 0)
    × (p'.queued_reqs ≡ [])
unfolding threads worker
take_each-Forwards_example =
    take_each-Forwards ((7, response) ∷ (8, response) ∷ []) threads
      (((λ e. omega arith), tt), (tt, tt)) (omega arith) (omega arith)

abbrev results : List (ActionResult ℕ ℕ)
results = ok (server_python_code_timeout_new 16777216 0) ∷ ok action ∷ []

abbrev turn : Turn ℕ ℕ
turn = record {
  now = 0;
  poll = ready [];
  io = λ _ _. record {
    unix_read = ok [];
    unix_fds = [];
    unix_write = ok 0;
    tcp_read = ok [];
    tcp_write = ok 0;
    starts = record { messages = []; disconnected = false };
    responses = record { messages = []; disconnected = false };
    random = record { trace_id = []; span_id = [] };
  };
  registry = λ _. ok tt;
  timeout_registry = λ _. ok tt;
  deregister = λ _. ok tt;
  unix_registry = ok tt;
}

abbrev round : Round ℕ ℕ
round = record { worker = worker; results = []; timeouts = []; closing = false }

handle_timeout-late_example :
    (r' : Round ℕ ℕ) × (answer : CasketResponse) × (handle_timeout turn 16777216 python_code round
      ≡ next r')
    × (r'.results ≡ ok (server_casket_response_new 16777216 5 answer) ∷ [])
    × Is504 answer
    × (lookup 16777216 r'.worker.server_pending_streams ≡ none)
    × ((take_response (16777216, response) r'.worker.python_threads).1 ≡ [])
    × OnSome
        (λ w.
          handle_timeout turn 16777216 python_code (set_worker w round) ≡ next (set_worker w round))
        (handle_action response_format cfg 0 (ok tt) action worker)
unfolding worker
handle_timeout-late_example =
    handle_timeout-late response_format cfg turn 0 16777216 5 (ok tt) round response (refl, tt) refl
