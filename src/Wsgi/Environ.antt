-- ===== src/Wsgi/Environ.antt =====
-- src/pythonexec/wsgi.rs: the dictionary that an application finds its request in.
-- The texts of a method and a URL are those of the http_types library, which is a parameter. A
-- dictionary is an association list with one entry for each key; setting a text key does not fail.
use casket.Base.{
  ℕ, ◌-◌, Bool, true, false, Option, none, some, List, [], ◌∷◌, ◌++◌, map, Bytes, codes, leb, ◌&&◌,
  ◌==◌, if◌then◌else◌, length, eq_bytes,
}
use casket.Http.{Context, HttpRequest}
use casket.Wsgi.{WsgiInput, new}

-- What is used of the http_types library.
pub record HttpTypes (Method Url : Type 0) : Type 0 where
  pub method_text : Method → Bytes
  pub path : Url → Bytes
  pub query : Url → Option Bytes

pub record TraceContext : Type 0 where
  pub trace_id : Bytes
  pub span_id : Bytes
  pub parent_id : Option Bytes

-- An object in the dictionary.
pub data Value : Type 0 where
  str : Bytes → Value
  int : ℕ → Value
  bool : Bool → Value
  tuple : ℕ → ℕ → Value
  input : WsgiInput → Value
  errors : Value
  trace_ctx : TraceContext → Value

abbrev pub Environ : Type 0
Environ = List (Bytes × Value)

abbrev pub get_item : Bytes → Environ → Option Value
get_item key [] = none
get_item key ((k, v) ∷ env) = if eq_bytes k key then some v else get_item key env

abbrev pub set_item : Bytes → Value → Environ → Environ
set_item key v [] = (key, v) ∷ []
set_item key v ((k, w) ∷ env) = if eq_bytes k key then (k, v) ∷ env else (k, w) ∷ set_item key v env

abbrev pub to_ascii_uppercase : ℕ → ℕ
to_ascii_uppercase c = if leb b'a' c && leb c b'z' then c - 32 else c

-- `name.replace('-', "_")`.
abbrev pub dash_to_underscore : ℕ → ℕ
dash_to_underscore c = if c == b'-' then b'_' else c

unfoldable pub http_key : Bytes → Bytes
http_key name = codes "HTTP_" ++ map dash_to_underscore (map to_ascii_uppercase name)

abbrev pub upper_name : Bytes × Bytes → Bytes × Bytes
upper_name (name, value) = (map to_ascii_uppercase name, value)

-- The loop over the headers.
unfoldable pub set_headers : List (Bytes × Bytes) → Environ → Environ
unfolding http_key
set_headers [] env = env
set_headers ((name, value) ∷ hs) env = set_headers hs (set_item (http_key name) (str value) env)

-- The calls of `set_item` in a row; one under a test that fails has no value.
unfoldable pub set_items : List (Bytes × Option Value) → Environ → Environ
set_items [] env = env
set_items ((key, none) ∷ items) env = set_items items env
set_items ((key, some v) ∷ items) env = set_items items (set_item key v env)

abbrev pub unwrap_or_default : Option Bytes → Bytes
unwrap_or_default none = []
unwrap_or_default (some body) = body

abbrev pub content_length : Option Bytes → Option Value
content_length none = none
content_length (some body) = some (int (length body))

abbrev pub to_str : Option Bytes → Option Value
to_str none = none
to_str (some text) = some (str text)

module _ {Method Url : Type 0} (types : HttpTypes Method Url) (server : Bytes × ℕ) where
  -- The entries before the headers.
  unfoldable pub request_items : HttpRequest Method Url → List (Bytes × Option Value)
  request_items req =
      (codes "REQUEST_METHOD", some (str (map to_ascii_uppercase (types.method_text req.method))))
      ∷ (codes "SCRIPT_NAME", some (str (types.path req.url)))
      ∷ (codes "PATH_INFO", some (str (types.path req.url)))
      ∷ (codes "QUERY_STRING", to_str (types.query req.url))
      ∷ (codes "CONTENT_TYPE", to_str req.content_type)
      ∷ (codes "CONTENT_LENGTH", content_length req.body)
      ∷ (codes "SERVER_NAME", some (str server.0))
      ∷ (codes "SERVER_PORT", some (int server.1))
      ∷ (codes "SERVER_PROTOCOL", some (str (codes "HTTP/1.1")))
      ∷ []

  abbrev request_trace : Context → TraceContext
  request_trace ctx = record {
    trace_id = ctx.trace_id;
    span_id = ctx.span_id;
    parent_id = ctx.parent_id;
  }

  -- The entries behind the headers.
  unfoldable pub wsgi_items : HttpRequest Method Url → List (Bytes × Option Value)
  unfolding new
  wsgi_items req =
      (codes "wsgi.version", some (tuple 1 0))
      ∷ (codes "wsgi.url_scheme", some (str (codes "http")))
      ∷ (codes "wsgi.input", some (input (new (unwrap_or_default req.body))))
      ∷ (codes "wsgi.errors", some errors)
      ∷ (codes "wsgi.multithread", some (bool true))
      ∷ (codes "wsgi.multiprocess", some (bool true))
      ∷ (codes "wsgi.run_once", some (bool false))
      ∷ (codes "casket.trace_ctx", some (trace_ctx (request_trace req.context)))
      ∷ []

  -- The request keeps its upper-cased header names and loses its body.
  unfoldable pub build_environ : HttpRequest Method Url → HttpRequest Method Url × Environ
  unfolding set_items request_items set_headers wsgi_items
  build_environ req = (
    record req { headers = map upper_name req.headers; body = none },
    set_items (wsgi_items req) (set_headers req.headers (set_items (request_items req) [])),
  )
