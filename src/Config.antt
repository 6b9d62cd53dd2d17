-- ===== src/Config.antt =====
-- src/config.rs: the settings, and how they are read from the environment.
mod Number
mod Address
pub mod Env
pub mod Tests
unfoldable pub use Number.*
unfoldable pub use Address.*
use casket.Base.{
  is_utf8, ◌&&◌, ℕ, ◌*◌, ◌^◌, Bool, true, false, List, [], ◌∷◌, ◌++◌, Bytes, codes, Option, none,
  some, Result, ok, err, ◌==◌, if◌then◌else◌, eq_bytes,
}

-- A `Duration` is its number of nanoseconds.
abbrev pub from_secs : ℕ → ℕ
from_secs n = n * 10 ^ 9

pub record Config : Type 0 where
  pub num_workers : ℕ
  pub num_threads : ℕ
  pub bind_addr : SocketAddrV4
  pub hostname : Bytes
  pub max_conns : ℕ
  pub max_requests : ℕ
  pub body_stacktrace : Bool
  pub log_response : Bool
  pub ctrlc_wait_time : ℕ
  pub request_read_timeout : ℕ
  pub python_code_timeout : ℕ
  pub version : ℕ × ℕ

-- `Config::default`; `hostname` is what is read from `/etc/hostname`.
unfoldable pub default : Option Bytes → Config
default hostname = record {
  num_workers = 3;
  num_threads = 2;
  bind_addr = record { ip = (0, 0, 0, 0); port = 8080 };
  hostname = trim_end (elim hostname [ none ↦ codes "casket" | some name ↦ name ]);
  max_conns = 256;
  max_requests = 64;
  body_stacktrace = true;
  log_response = true;
  ctrlc_wait_time = from_secs 10;
  request_read_timeout = from_secs 30;
  python_code_timeout = from_secs 10;
  version = (0, 2);
}

infixl 5 ◌>>=◌
abbrev ◌>>=◌ : {A B : Type 0} → Result Bytes A → (A → Result Bytes B) → Result Bytes B
ok a >>= f = f a
err e >>= f = err e

abbrev or_err : {A : Type 0} → Option A → Bytes → Result Bytes A
or_err none e = err e
or_err (some a) e = ok a

-- A flag is the number 0 or 1.
abbrev parse_flag : Bytes → Bytes → Result Bytes Bool
parse_flag value e = elim (parse_usize value) [
  | none ↦ err e
  | some n ↦ if n == 0 then ok false else if n == 1 then ok true else err e
]

-- One variable of the environment.
unfoldable pub set_var : Config → Bytes × Bytes → Result Bytes Config
unfolding parse_usize parse_socket_addr eq_bytes
set_var c (key, value) =
    if eq_bytes key (codes "CASKET_BIND_ADDR")
    then (do
      addr ←
          or_err (parse_socket_addr value)
            (codes "CASKET_BIND_ADDR invalid - AddrParseError(SocketV4)")
      ok (record c { bind_addr = addr }))
    else if eq_bytes key (codes "CASKET_NUM_WORKERS")
    then (do
      n ← or_err (parse_usize value) (codes "CASKET_NUM_WORKERS must be positive integer")
      ok (record c { num_workers = n }))
    else if eq_bytes key (codes "CASKET_NUM_THREADS_PER_WORKER")
    then (do
      n ←
          or_err (parse_usize value)
            (codes "CASKET_NUM_THREADS_PER-WORKER must be positive integer")
      ok (record c { num_threads = n }))
    else if eq_bytes key (codes "CASKET_MAX_CONNECTIONS")
    then (do
      n ← or_err (parse_usize value) (codes "CASKET_MAX_CONNECTIONS must be positive integer")
      ok (record c { max_conns = n }))
    else if eq_bytes key (codes "CASKET_MAX_REQUESTS")
    then (do
      n ← or_err (parse_usize value) (codes "CASKET_MAX_REQUESTS must be positive integer")
      ok (record c { max_requests = n }))
    else if eq_bytes key (codes "CASKET_RETURN_STACKTRACE_IN_BODY")
    then (do
      b ← parse_flag value (codes "CASKET_RETURN_STACKTRACE_IN_BODY must be 0 or 1")
      ok (record c { body_stacktrace = b }))
    else if eq_bytes key (codes "CASKET_LOG_HTTP_RESPONSE")
    then (do
      b ← parse_flag value (codes "CASKET_LOG_HTTP_RESPONSE must be 0 or 1")
      ok (record c { log_response = b }))
    else if eq_bytes key (codes "CASKET_CTRLC_WAIT_TIME")
    then (do
      n ← or_err (parse_usize value) (codes "CASKET_CTRLC_WAIT_TIME must be a positive integer")
      ok (record c { ctrlc_wait_time = from_secs n }))
    else if eq_bytes key (codes "CASKET_REQUEST_READ_TIMEOUT")
    then (do
      n ← or_err (parse_usize value) (codes "CASKET_CTRLC_READ_TIMEOUT must be a positive integer")
      ok (record c { request_read_timeout = from_secs n }))
    else if eq_bytes key (codes "CASKET_PYTHON_CODE_GATEWAY_TIMEOUT")
    then (do
      n ←
          or_err (parse_usize value)
            (codes "CASKET_PYTHON_CODE_GATEWAY_TIMEOUT must be a positive integer")
      ok (record c { python_code_timeout = from_secs n }))
    else ok c

-- A name or a value that is text.
abbrev pub is_unicode : Bytes × Bytes → Bool
is_unicode (key, value) = is_utf8 [] key && is_utf8 [] value

-- `env::vars` panics, with `none`, when it comes to a variable that is not text.
unfoldable pub set_vars : Config → List (Bytes × Bytes) → Option (Result Bytes Config)
unfolding set_var is_utf8
set_vars c [] = some (ok c)
set_vars c (var ∷ vars) =
    if is_unicode var
    then elim (set_var c var) [ ok c' ↦ set_vars c' vars | err e ↦ some (err e) ]
    else none

-- `vars` are the variables of the environment in the order of `env::vars`, as the bytes that they
-- are.
unfoldable pub from_env : Option Bytes → List (Bytes × Bytes) → Option (Result Bytes Config)
unfolding default set_vars
from_env hostname vars = set_vars (default hostname) vars

abbrev pub port : Config → ℕ
port c = c.bind_addr.port
