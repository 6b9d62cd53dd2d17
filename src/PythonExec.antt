-- ===== src/PythonExec.antt =====
-- src/pythonexec/mod.rs: the Python threads of a worker, and how the application is loaded.
-- A thread's work is the list of what it does to its channels and to the log. Starting a thread is
-- the operating system's, and what the interpreter gives for a file's code is a parameter.
pub mod Outcome
pub mod Served
pub mod Spawned
pub mod Tests
use casket.Base.{
  ℕ, zero, suc, Bool, true, false, Option, none, some, List, [], ◌∷◌, ◌++◌, map, Bytes, codes,
  Result, ok, err, if◌then◌else◌, length, split,
}
use casket.Config.{Config}
use casket.Http.{
  Context, HttpRequest, HttpResponse, HttpResponseHeader, Receiver, into_http_response,
}
use casket.Python.{PyErr, new_err}
use casket.ReqLocal.{ReqLocal, init_req_thread, set_context}
use casket.Workq.{Sender}
use casket.Workq
use casket.Wsgi.Environ.{Environ, HttpTypes}
use casket.Wsgi.Execute.{Call, Logged, Started, Thread, execute}
use casket.Wsgi.StartResponse.{ParseResponse}
use casket.Wsgi.{BytesIter, ExecError, handle_wsgi_exec_err, stream_body}

-- What a thread does, in order: it tells that the code of a request starts, at a time; a line of the
-- application goes to the log, or that it raised; the response is sent, then the parts of its body,
-- whose channel is closed at the end.
pub data Event (Method Url : Type 0) : Type 0 where
  started : ℕ → ℕ → Event Method Url
  logged : Logged → Event Method Url
  raised : Context → ExecError → Event Method Url
  responded : ℕ → HttpResponse Method Url → Event Method Url
  body_sent : ℕ → Bytes → Event Method Url
  body_closed : ℕ → Event Method Url

pub data RespBody : Type 0 where
  memory : Bytes → RespBody
  py_iterator : BytesIter → Bool → RespBody

-- A request that comes out of the queue: its key, the time, and whether the two channels to the
-- worker's loop still have their receivers.
pub record Received (Method Url : Type 0) : Type 0 where
  pub key : ℕ
  pub http_req : HttpRequest Method Url
  pub now : ℕ
  pub starts_alive : Bool
  pub responses_alive : Bool

-- The variables of the thread after a request, what it did, and whether the loop goes on.
pub record Done (Method Url : Type 0) : Type 0 where
  pub local : ReqLocal
  pub events : List (Event Method Url)
  pub goes_on : Bool

-- The channel of a body before its first part.
abbrev pub body_channel : Receiver
body_channel = record { parts = []; connected = true }

-- What is sent as the body. An iterator that ends does so within two rounds more than what is to come
-- of it; the loop over one that does not is never left.
unfoldable pub send_body : RespBody → Option (List Bytes)
send_body (memory body) = some (body ∷ [])
send_body (py_iterator iter false) = none
send_body (py_iterator iter true) = stream_body (suc (suc (length iter.bytes_iter))) iter

module _ {Method Url : Type 0} where
  -- The header and the body, and what goes to the log.
  unfoldable pub to_response :
      Config
      → Context
      → Result ExecError Started
      → HttpResponseHeader × RespBody × List (Event Method Url)
  to_response cfg ctx (ok (header, iter, ends)) = (header, py_iterator iter ends, [])
  to_response cfg ctx (err e) =
      let (header, body) = handle_wsgi_exec_err cfg e in (header, memory body, raised ctx e ∷ [])

  abbrev pub body_events : ℕ → List Bytes → List (Event Method Url)
  body_events key parts = map (body_sent key) parts ++ body_closed key ∷ []

  -- From the call of the application on.
  unfoldable pub finish :
      Config
      → Received Method Url
      → HttpRequest Method Url
      → Thread
      → Result ExecError Started
      → Option (Done Method Url)
  unfolding to_response send_body
  finish cfg r req t result =
      let (header, body, log) = to_response cfg req.context result in
      let before = started r.key r.now ∷ map logged t.logged ++ log in
      let response = into_http_response req header body_channel in
      if r.responses_alive
      then (elim (send_body body) [
        | none ↦ none
        | some parts ↦ some (record {
          local = t.local;
          events = before ++ responded r.key response ∷ body_events r.key parts;
          goes_on = true;
        })
      ])
      else some (record { local = t.local; events = before; goes_on = false })

module _ {Method Url : Type 0} (parse : ParseResponse) (types : HttpTypes Method Url) (cfg : Config)
    (server : Bytes × ℕ) (wsgi_callable : Environ → Call) where
  -- One round of the loop of `run`.
  unfoldable pub serve_request : Received Method Url → ReqLocal → Option (Done Method Url)
  unfolding finish
  serve_request r local =
      let local' = set_context r.http_req.context (init_req_thread local) in
      if r.starts_alive
      then (let thread : Thread = record { local = local'; logged = [] } in
          elim (execute parse types server wsgi_callable r.http_req thread) [
            | none ↦ none
            | some (req', t', result) ↦ finish cfg r req' t' result
          ])
      else some (record { local = local'; events = []; goes_on = false })

  -- `run`: what the thread does with the requests that it receives.
  unfoldable pub run : List (Received Method Url) → ReqLocal → Option (List (Event Method Url))
  unfolding serve_request
  run [] local = some []
  run (r ∷ rs) local = elim (serve_request r local) [
    | none ↦ none
    | some done ↦
        let rest = run rs done.local in
        if done.goes_on
        then (elim rest [ none ↦ none | some events ↦ some (done.events ++ events) ])
        else some done.events
  ]

-- The queue to the threads after the loop of `spawn`, which gives each thread its receiver.
unfoldable pub new_recvs : {T : Type 0} → ℕ → Sender T → Sender T
new_recvs zero s = s
new_recvs (suc n) s = new_recvs n (Workq.new_recv s)

unfoldable pub spawn : {T : Type 0} → Config → Sender T
unfolding new_recvs
spawn cfg = new_recvs cfg.num_threads Workq.new

-- What is used of the interpreter and of the file system: `sys.modules` gets the module `casket`
-- with its logger, and a file's text becomes a module, whose attributes are asked for.
pub record Interpreter (PyModule PyObject : Type 0) : Type 0 where
  pub add_casket : Result PyErr (Unit {0})
  pub read_to_string : Bytes → Result Bytes Bytes
  pub from_code : Bytes → Bytes → Bytes → Result PyErr PyModule
  pub getattr : PyModule → Bytes → Result PyErr PyObject

module _ {PyModule PyObject : Type 0} (py : Interpreter PyModule PyObject) where
  unfoldable pub load_application : Bytes → Bytes → Result PyErr PyObject
  load_application mod_name func_name =
      let fname = mod_name ++ codes ".py" in
      elim (py.read_to_string fname) [
        | err e ↦ err (new_err e)
        | ok code ↦ elim (py.from_code code fname mod_name) [
          | err e ↦ err e
          | ok m ↦ py.getattr m func_name
        ]
      ]

  unfoldable pub load_parts : Bytes → List Bytes → Result PyErr PyObject
  load_parts mod_name (func_name ∷ []) = elim py.add_casket [
    | err e ↦ err e
    | ok _ ↦ load_application mod_name func_name
  ]
  load_parts mod_name [] = err (new_err (codes "invalid python app string"))
  load_parts mod_name (func_name ∷ part ∷ parts) = err (new_err (codes "invalid python app string"))

  -- `Application::load`.
  unfoldable pub load : Bytes → Result PyErr PyObject
  unfolding load_parts load_application
  load app_str = let (mod_name, rest) = split b':' app_str in load_parts mod_name rest
