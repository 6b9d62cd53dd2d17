-- ===== src/Wsgi/Logged.antt =====
-- What the lines of the log say that an application writes while it is called.
use casket.Base.{
  OnSome, [], map, ◌∷◌, Bytes, ℕ, ◌≡◌, ap, ◌∙◌, inl, inr, Result-cases, Option-cases, subst, Option,
  some, List, ◌++◌, Bytes, arith, All, All-append, Result, ok, err,
}
use casket.Http.{Context, HttpRequest}
use casket.Logger.{
  Entry, Level, Tags, log, get_entries, context_entries, info, warn, error, level_info, level_warn,
  level_error,
}
use casket.Python.{PyErr, PyHeader}
use casket.ReqLocal.{ReqLocal, get_context, put_response_header, take_response_header}
use casket.Wsgi.Environ.{Environ, HttpTypes, build_environ}
use casket.Wsgi.Execute.{
  Call, Body, returns, never_returns, raises, call_start_response, call_log, call_write,
  call_writelines, Logged, logger_line, application_error, Thread, call1, answer, lines,
  log_function, start_iter, execute_inner, execute,
}
use casket.Wsgi.ErrorStream.{write, writelines}
use casket.Wsgi.StartResponse.{ParseResponse, start_response}

-- A line of the loggers ends with the identifiers of the request's trace.
abbrev pub IsTagged : Context → Logged → Type 0
IsTagged ctx (application_error text) = Unit
IsTagged ctx (logger_line line) =
    (entries : List Entry) × (line.entries ≡ entries ++ context_entries (some ctx))

-- The thread works on a request with this trace, and so say all its lines.
pub record IsTracing (ctx : Context) (t : Thread) : Type 0 where
  pub context : t.local.context ≡ some ctx
  pub tagged : All (IsTagged ctx) t.logged

log-IsTagged :
    (ctx : Context) (level : Level) (message : Bytes) (tags : Tags) (s : ReqLocal)
    → s.context ≡ some ctx
    → All (IsTagged ctx) (lines (log level message tags s))
unfolding log get_context
log-IsTagged ctx level message tags s e = elim (Result-cases (get_entries tags)) [
  | inl (entries, got) ↦ rw (got, log) ((entries, ap (λ c. entries ++ context_entries c) e), tt)
  | inr (_, got) ↦ rw (got, log) tt
]

log_function-IsTagged :
    (ctx : Context) (level : Level) (message : Bytes) (tags : Option Tags) (s : ReqLocal)
    → s.context ≡ some ctx
    → All (IsTagged ctx) (lines (log_function level message tags s))
unfolding log_function info warn error
log_function-IsTagged ctx level_info message tags s e = log-IsTagged ctx level_info message _ s e
log_function-IsTagged ctx level_warn message tags s e = log-IsTagged ctx level_warn message _ s e
log_function-IsTagged ctx level_error message tags s e = log-IsTagged ctx level_error message _ s e

start_response-context :
    (parse : ParseResponse) (status : Bytes) (headers : List PyHeader) (s : ReqLocal)
    → (start_response parse status headers s).0.context ≡ s.context
unfolding start_response put_response_header
start_response-context parse status headers s = ground arith

texts-IsTagged :
    (ctx : Context) (texts : List Bytes) → All (IsTagged ctx) (map application_error texts)
texts-IsTagged ctx [] = tt
texts-IsTagged ctx (text ∷ texts) = (tt, texts-IsTagged ctx texts)

wrote-IsTracing :
    (ctx : Context) (texts : List Bytes) (t : Thread)
    → IsTracing ctx t
    → IsTracing ctx (record t { logged = t.logged ++ map application_error texts })
wrote-IsTracing ctx texts t h = record {
  context = h.context;
  tagged =
      All-append (IsTagged ctx) t.logged (map application_error texts) h.tagged
        (texts-IsTagged ctx texts);
}

call1-IsTracing :
    (parse : ParseResponse) (ctx : Context) (call : Call) (t : Thread)
    → IsTracing ctx t
    → OnSome (λ r. IsTracing ctx r.0) (call1 parse call t)
unfolding call1
call1-IsTracing parse ctx (returns body) t h = h
call1-IsTracing parse ctx never_returns t h = tt
call1-IsTracing parse ctx (raises e) t h = h
call1-IsTracing parse ctx (call_start_response status headers then) t h =
    let (local, result) = start_response parse status headers t.local in
    call1-IsTracing parse ctx (then result) (record t { local = local })
      (record {
        context = start_response-context parse status headers t.local ∙ h.context;
        tagged = h.tagged;
      })
call1-IsTracing parse ctx (call_write error then) t h =
    let texts = write error in
    call1-IsTracing parse ctx (then (ok tt))
      (record t { logged = t.logged ++ map application_error texts })
      (wrote-IsTracing ctx texts t h)
call1-IsTracing parse ctx (call_writelines object then) t h =
    let (texts, result) = writelines object in
    call1-IsTracing parse ctx (then result)
      (record t { logged = t.logged ++ map application_error texts })
      (wrote-IsTracing ctx texts t h)
call1-IsTracing parse ctx (call_log level message tags then) t h =
    let result = log_function level message tags t.local in
    call1-IsTracing parse ctx (then (answer result))
      (record t { logged = t.logged ++ lines result })
      (record {
        context = h.context;
        tagged =
            All-append (IsTagged ctx) t.logged (lines result) h.tagged
              (log_function-IsTagged ctx level message tags t.local h.context);
      })

start_iter-IsTracing :
    (ctx : Context) (t : Thread) (result : Result PyErr Body)
    → IsTracing ctx t
    → IsTracing ctx (start_iter t result).0
unfolding start_iter take_response_header
start_iter-IsTracing ctx t (err e) h = h
start_iter-IsTracing ctx t (ok body) h = ground arith

module _ {Method Url : Type 0} where
  -- Whatever the application does while it is called, the lines that it logs with the loggers end with the
  -- identifiers of the request's trace.
  pub execute-IsTracing :
      (parse : ParseResponse) (types : HttpTypes Method Url) (server : Bytes × ℕ)
      (wsgi_callable : Environ → Call) (ctx : Context) (req : HttpRequest Method Url) (t : Thread)
      → IsTracing ctx t
      → OnSome (λ r. IsTracing ctx r.1) (execute parse types server wsgi_callable req t)
  unfolding execute execute_inner
  execute-IsTracing parse types server wsgi_callable ctx req t h =
      let environ = (build_environ types server req).1 in
      let traced = call1-IsTracing parse ctx (wsgi_callable environ) t h in
      elim (Option-cases (call1 parse (wsgi_callable environ) t)) [
        | inl e ↦ rw (e, execute) tt
        | inr (r, e) ↦
            rw (e, execute)
              (start_iter-IsTracing ctx r.0 r.1 (subst (OnSome (λ r. IsTracing ctx r.0)) e traced))
      ]
