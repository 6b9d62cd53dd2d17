-- ===== src/PythonExec/Outcome.antt =====
-- What a call of the application comes to, and what is sent of it.
use casket.Base.{
  suc, ◌≡◌, refl, inl, inr, ◌⊎◌, Option-cases, Result-cases, arith, ap, ◌∙◌, none, some, true, List,
  [], ◌∷◌, ◌++◌, map, Bytes, ok, err, Result, length,
}
use casket.Config.{Config}
use casket.Http.{HttpResponseHeader}
use casket.PythonExec.{py_iterator, send_body}
use casket.ReqLocal.{take_response_header}
use casket.Python.{PyErr}
use casket.Wsgi.Body.{yielded, stream_body_lem}
use casket.Wsgi.ErrorStream.{write, writelines}
use casket.Wsgi.Execute.{
  Call, Body, returns, never_returns, raises, call_start_response, call_write, call_writelines,
  call_log, Started, Thread, application_error, answer, lines, log_function, call1, start_iter,
  build_exec_err,
}
use casket.Wsgi.StartResponse.{ParseResponse, start_response}
use casket.Wsgi.{
  Chunks, BytesIter, new_iter, ExecError, handle_wsgi_exec_err, stream_body, next, next_body_chunk,
}

-- Whatever its calls answer, the application comes to an end, and so does the iterator that it gives.
abbrev pub Ends : Call → Type 0
Ends never_returns = ⊥
Ends (returns body) = body.ends ≡ true
Ends (raises e) = Unit
Ends (call_start_response status headers then) = (a : Result PyErr (Unit {0})) → Ends (then a)
Ends (call_write error then) = (a : Result PyErr (Unit {0})) → Ends (then a)
Ends (call_writelines object then) = (a : Result PyErr (Unit {0})) → Ends (then a)
Ends (call_log level message tags then) = (a : Result PyErr (Unit {0})) → Ends (then a)

-- What the application's call has come to: the thread's variables, and its error or its iterator.
abbrev pub Answer : Type 0
Answer = Thread × Result PyErr Body

abbrev pub IsEnding : Answer → Type 0
IsEnding (t, ok body) = body.ends ≡ true
IsEnding (t, err e) = Unit

pub call1-Ends :
    (parse : ParseResponse) (call : Call) (t : Thread)
    → Ends call
    → (answer : Answer) × (call1 parse call t ≡ some answer) × IsEnding answer
unfolding call1
call1-Ends parse (returns body) t h = ((t, ok body), refl, h)
call1-Ends parse never_returns t h = absurd h
call1-Ends parse (raises e) t h = ((t, err e), refl, tt)
call1-Ends parse (call_start_response status headers then) t h =
    let (local, result) = start_response parse status headers t.local in
    call1-Ends parse (then result) (record t { local = local }) (h result)
call1-Ends parse (call_write error then) t h =
    call1-Ends parse (then (ok tt))
      (record t { logged = t.logged ++ map application_error (write error) }) (h (ok tt))
call1-Ends parse (call_writelines object then) t h =
    let (texts, result) = writelines object in
    call1-Ends parse (then result) (record t { logged = t.logged ++ map application_error texts })
      (h result)
call1-Ends parse (call_log level message tags then) t h =
    let result = log_function level message tags t.local in
    call1-Ends parse (then (answer result)) (record t { logged = t.logged ++ lines result })
      (h (answer result))

-- The application has raised, or has not called `start_response`, or its iterator's first call raises.
abbrev pub Fails : Answer → Type 0
Fails (t, err e) = Unit
Fails (t, ok body) =
    (t.local.response_header ≡ none) ⊎ ((e : PyErr) × (new_iter body.chunks ≡ err e))

-- The header and the parts of the body with which a call of the application is answered: those that the
-- application has given, or the page for an error.
abbrev pub Gives : Config → Answer → HttpResponseHeader → List Bytes → Type 0
Gives cfg (t, result) header parts =
    ((body : Body) × (result ≡ ok body)
      × (t.local.response_header ≡ some header)
      × (parts ≡ yielded body.chunks))
    ⊎ ((e : ExecError) × Fails (t, result)
        × (header ≡ (handle_wsgi_exec_err cfg e).0)
        × (parts ≡ (handle_wsgi_exec_err cfg e).1 ∷ []))

-- What comes of the iterator that the application gave.
abbrev pub outcome : Answer → Thread × Result ExecError Started
outcome (t, result) =
    let (t', iter) = start_iter t result in
    (t', elim iter [ ok iter ↦ ok iter | err e ↦ err (build_exec_err e) ])

abbrev pub Shows : Answer → Result ExecError Started → Type 0
Shows a (err e) = Fails a
Shows (t, result) (ok (header, iter, ends)) =
    (body : Body) × (result ≡ ok body)
    × (t.local.response_header ≡ some header)
    × (send_body (py_iterator iter ends) ≡ some (yielded body.chunks))

started_sends :
    (chunks : Chunks) (iter : BytesIter)
    → new_iter chunks ≡ ok iter
    → stream_body (suc (suc (length iter.bytes_iter))) iter ≡ some (yielded chunks)
unfolding new_iter next_body_chunk stream_body next
started_sends [] s h =
    let e : s ≡ record { next_val = none; bytes_iter = [] } = ground arith in
    ap (λ (s : BytesIter). stream_body (suc (suc (length s.bytes_iter))) s) e
started_sends (ok c ∷ rest) s h =
    let e : s ≡ record { next_val = some c; bytes_iter = rest } = ground arith in
    ap (λ (s : BytesIter). stream_body (suc (suc (length s.bytes_iter))) s) e
    ∙ stream_body_lem rest c
started_sends (err x ∷ rest) s h = ground arith

body_sends :
    (body : Body) (iter : BytesIter)
    → body.ends ≡ true
    → new_iter body.chunks ≡ ok iter
    → send_body (py_iterator iter body.ends) ≡ some (yielded body.chunks)
unfolding send_body
body_sends body iter ends e = rw (ends, send_body) (started_sends body.chunks iter e)

pub outcome-Shows : (a : Answer) → IsEnding a → Shows a (outcome a).1
unfolding start_iter take_response_header
outcome-Shows (t, err e) h = tt
outcome-Shows (t, ok body) h = elim (Option-cases t.local.response_header) [
  | inl none_e ↦ rw none_e (inl refl)
  | inr (header, some_e) ↦ elim (Result-cases (new_iter body.chunks)) [
    | inl (iter, e) ↦ rw (some_e, e) (body, refl, refl, body_sends body iter h e)
    | inr (x, e) ↦ rw (some_e, e) (inr (x, e))
  ]
]
