-- ===== src/Wsgi.antt =====
-- src/pythonexec/wsgi.rs: what a WSGI application reads its request from, and how its body and its
-- errors become a response.
pub mod StartResponse
pub mod Environ
pub mod ErrorStream
pub mod Execute
pub mod Headers
pub mod Logged
pub mod Input
pub mod Body
pub mod Tests
use casket.Base.{
  ℕ, zero, suc, ◌+◌, ◌-◌, Bool, Option, none, some, List, [], ◌∷◌, ◌++◌, Bytes, codes, Result, ok,
  err, ltb, ◌==◌, if◌then◌else◌, length, take, drop, get_elem?, to_decimal,
}
use casket.Config.{Config}
use casket.Http.{HttpResponseHeader}
use casket.Python.{PyErr}

pub record WsgiInput : Type 0 where
  pub body : Bytes
  pub pos : ℕ

unfoldable pub new : Bytes → WsgiInput
new body = record { body = body; pos = 0 }

-- How many bytes are read. `none` is Python's None.
abbrev pub read_size : ℕ → Option ℕ → ℕ
read_size bytes_remaining none = bytes_remaining
read_size bytes_remaining (some size) = if ltb bytes_remaining size then bytes_remaining else size

unfoldable pub read : WsgiInput → Option ℕ → WsgiInput × Bytes
read s size =
    let size' = read_size (length s.body - s.pos) size in
    (record s { pos = s.pos + size' }, take size' (drop s.pos s.body))

-- The loop of `readline`: how many bytes stand before the first newline, if there is one.
unfoldable pub find_newline : Bytes → Option ℕ
find_newline [] = none
find_newline (b ∷ bs) =
    let rest = find_newline bs in
    if b == 10 then some 0 else elim rest [ none ↦ none | some n ↦ some (suc n) ]

unfoldable pub readline : WsgiInput → WsgiInput × Bytes
unfolding find_newline
readline s = elim (find_newline (drop s.pos s.body)) [
  | some count ↦ (record s { pos = s.pos + count }, take count (drop s.pos s.body))
  | none ↦ (record s { pos = length s.body }, drop s.pos s.body)
]

-- The loop of `readlines`, whose round is number `n`. The code has no bound where `size` is not
-- met: a result of `none` is that `fuel` rounds have not come to an end.
unfoldable pub readlines_loop :
    ℕ → ℕ → Option ℕ → WsgiInput → List Bytes → Option (WsgiInput × List Bytes)
unfolding readline
readlines_loop zero n size s list = none
readlines_loop (suc fuel) n size s list =
    let (s', line) = readline s in
    let list' = list ++ line ∷ [] in
    let rest = readlines_loop fuel (suc n) size s' list' in
    elim size [ none ↦ rest | some sz ↦ if sz == n then some (s', list') else rest ]

unfoldable pub readlines : ℕ → WsgiInput → Option ℕ → Option (WsgiInput × List Bytes)
unfolding readlines_loop
readlines fuel s size = readlines_loop fuel 1 size s []

-- `WsgiInputIter::__next__`. Behind the end it panics, where `pos` never is.
unfoldable pub next_byte : WsgiInput → WsgiInput × Option ℕ
next_byte s = elim (get_elem? s.body s.pos) [
  | none ↦ (s, none)
  | some byte ↦ (record s { pos = s.pos + 1 }, some byte)
]

-- What is to come of the iterator that the application gave: each call of its `next` yields a chunk
-- or raises; behind the list, it has ended.
abbrev pub Chunks : Type 0
Chunks = List (Result PyErr Bytes)

pub record BytesIter : Type 0 where
  pub next_val : Option Bytes
  pub bytes_iter : Chunks

unfoldable pub next_body_chunk : Chunks → Chunks × Result PyErr (Option Bytes)
next_body_chunk [] = ([], ok none)
next_body_chunk (ok chunk ∷ rest) = (rest, ok (some chunk))
next_body_chunk (err e ∷ rest) = (rest, err e)

unfoldable pub new_iter : Chunks → Result PyErr BytesIter
unfolding next_body_chunk
new_iter chunks =
    let (rest, next) = next_body_chunk chunks in
    elim next [ err e ↦ err e | ok v ↦ ok (record { next_val = v; bytes_iter = rest }) ]

-- `BytesIter::next`.
unfoldable pub next : BytesIter → BytesIter × Result PyErr (Option Bytes)
unfolding next_body_chunk
next s =
    let (rest, next) = next_body_chunk s.bytes_iter in
    elim next [
      | err e ↦ (record s { bytes_iter = rest }, err e)
      | ok v ↦ (record { next_val = v; bytes_iter = rest }, ok s.next_val)
    ]

pub record ExecError : Type 0 where
  pub traceback : Bytes
  pub value : Bytes
  pub py_err : PyErr

abbrev pub internal_server_error : List (Bytes × Bytes) → HttpResponseHeader
internal_server_error headers = record {
  code = 500;
  reason = codes "Internal Server Error";
  headers = headers;
}

unfoldable pub handle_python_exc_body_stacktrace : ExecError → HttpResponseHeader × Bytes
handle_python_exc_body_stacktrace e = (
  internal_server_error (
      (codes "Content-Length", to_decimal 20 (length e.traceback))
      ∷ (codes "Content-Type", codes "text/plain; charset=UTF-8")
      ∷ (codes "X-Error", e.value)
      ∷ []),
  e.traceback,
)

unfoldable pub handle_python_exc_empty : HttpResponseHeader × Bytes
handle_python_exc_empty = (internal_server_error ((codes "Content-Length", codes "0") ∷ []), [])

unfoldable pub handle_wsgi_exec_err : Config → ExecError → HttpResponseHeader × Bytes
unfolding handle_python_exc_body_stacktrace handle_python_exc_empty
handle_wsgi_exec_err cfg e =
    if cfg.body_stacktrace then handle_python_exc_body_stacktrace e else handle_python_exc_empty

-- The `loop` of `run` in src/pythonexec/mod.rs: what is sent as the body. An error is passed over.
-- A result of `none` is that `fuel` rounds have not come to an end.
unfoldable pub stream_body : ℕ → BytesIter → Option (List Bytes)
unfolding next
stream_body zero s = none
stream_body (suc fuel) s =
    let (s', result) = next s in
    let rest = stream_body fuel s' in
    elim result [
      | err e ↦ rest
      | ok none ↦ some []
      | ok (some chunk) ↦ elim rest [ none ↦ none | some chunks ↦ some (chunk ∷ chunks) ]
    ]
