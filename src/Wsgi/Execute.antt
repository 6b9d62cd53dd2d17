-- ===== src/Wsgi/Execute.antt =====
-- src/pythonexec/wsgi.rs: the call of an application.
-- An application is what it does with its environment: it calls `start_response`, the loggers and `wsgi.errors`,
-- and goes on with what they answer, until it raises or gives the iterator of its body, or it never comes
-- to an end. A result of `none` is a thread that is kept busy for ever.
use casket.Base.{
  map, ℕ, Bool, Option, none, some, List, [], ◌∷◌, ◌++◌, Bytes, codes, Result, ok, err,
}
use casket.Http.{HttpRequest, HttpResponseHeader}
use casket.Logger.{Level, Line, Tags, level_info, level_warn, level_error, info, warn, error}
use casket.Python.{PyAny, PyErr, PyHeader, new_err}
use casket.ReqLocal.{ReqLocal, take_response_header}
use casket.Wsgi.ErrorStream.{write, writelines}
use casket.Wsgi.Environ.{Environ, HttpTypes, build_environ}
use casket.Wsgi.StartResponse.{ParseResponse, start_response}
use casket.Wsgi.{BytesIter, Chunks, ExecError, new_iter}

-- What the calls of an iterator's `next` give, one after the other, and whether it ends behind them; one
-- that does not end yields or raises for ever, or does not come back.
pub record Body : Type 0 where
  pub chunks : Chunks
  pub ends : Bool

-- An object that is not iterable is raised as its error.
pub data Call : Type 0 where
  returns : Body → Call
  never_returns : Call
  raises : PyErr → Call
  call_start_response : Bytes → List PyHeader → (Result PyErr (Unit {0}) → Call) → Call
  call_write : Bytes → (Result PyErr (Unit {0}) → Call) → Call
  call_writelines :
      Result PyErr (List (Result PyErr PyAny)) → (Result PyErr (Unit {0}) → Call) → Call
  call_log : Level → Bytes → Option Tags → (Result PyErr (Unit {0}) → Call) → Call

-- The function that the application calls for a level.
unfoldable pub log_function : Level → Bytes → Option Tags → ReqLocal → Result PyErr Line
unfolding info warn error
log_function level_info = info
log_function level_warn = warn
log_function level_error = error

-- What goes to the log: a line of the loggers, or a text of `wsgi.errors`.
pub data Logged : Type 0 where
  logger_line : Line → Logged
  application_error : Bytes → Logged

-- The variables of the thread and what it has logged.
pub record Thread : Type 0 where
  pub local : ReqLocal
  pub logged : List Logged

abbrev pub answer : Result PyErr Line → Result PyErr (Unit {0})
answer (ok _) = ok tt
answer (err e) = err e

abbrev pub lines : Result PyErr Line → List Logged
lines (ok line) = logger_line line ∷ []
lines (err e) = []

unfoldable pub call1 : ParseResponse → Call → Thread → Option (Thread × Result PyErr Body)
unfolding start_response log_function write writelines
call1 parse (returns body) t = some (t, ok body)
call1 parse never_returns t = none
call1 parse (raises e) t = some (t, err e)
call1 parse (call_start_response status headers then) t =
    let (local, result) = start_response parse status headers t.local in
    call1 parse (then result) (record t { local = local })
call1 parse (call_write error then) t =
    let texts = map application_error (write error) in
    call1 parse (then (ok tt)) (record t { logged = t.logged ++ texts })
call1 parse (call_writelines object then) t =
    let (texts, result) = writelines object in
    call1 parse (then result) (record t { logged = t.logged ++ map application_error texts })
call1 parse (call_log level message tags then) t =
    let result = log_function level message tags t.local in
    call1 parse (then (answer result)) (record t { logged = t.logged ++ lines result })

unfoldable pub build_exec_err : PyErr → ExecError
build_exec_err e = record {
  traceback = elim e.traceback [ some (ok text) ↦ text | _ ↦ [] ];
  value = e.value;
  py_err = e;
}

-- The header and the body of a response, and whether the body ends.
abbrev pub Started : Type 0
Started = HttpResponseHeader × BytesIter × Bool

-- What `execute_inner` does with the iterator that the application gave, if it gave one.
unfoldable pub start_iter : Thread → Result PyErr Body → Thread × Result PyErr Started
unfolding take_response_header new_iter
start_iter t (err e) = (t, err e)
start_iter t (ok body) =
    let (local, header) = take_response_header t.local in
    let t' : Thread = record t { local = local } in
    elim header [
      | none ↦ (t', err (new_err (codes "start_response not called")))
      | some header ↦ elim (new_iter body.chunks) [
        | err e ↦ (t', err e)
        | ok iter ↦ (t', ok (header, iter, body.ends))
      ]
    ]

module _ {Method Url : Type 0} (parse : ParseResponse) (types : HttpTypes Method Url)
    (server : Bytes × ℕ) (wsgi_callable : Environ → Call) where
  unfoldable pub execute_inner :
      HttpRequest Method Url
      → Thread
      → Option (HttpRequest Method Url × Thread × Result PyErr Started)
  unfolding build_environ call1 start_iter
  execute_inner req t =
      let (req', environ) = build_environ types server req in
      elim (call1 parse (wsgi_callable environ) t) [
        | none ↦ none
        | some (t', result) ↦ let (t'', started) = start_iter t' result in some (req', t'', started)
      ]

  unfoldable pub execute :
      HttpRequest Method Url
      → Thread
      → Option (HttpRequest Method Url × Thread × Result ExecError Started)
  unfolding execute_inner build_exec_err
  execute req t = elim (execute_inner req t) [
    | none ↦ none
    | some (req', t', result) ↦
        some (req', t', elim result [ ok started ↦ ok started | err e ↦ err (build_exec_err e) ])
  ]
