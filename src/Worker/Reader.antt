-- ===== src/Worker/Reader.antt =====
-- src/worker/serverreader.rs: a request on its way from the client.
-- The parsers of httparse and http_types are a `Library`. A result of `none` is a panic.
mod Traceparent
pub mod Given
pub mod Body
pub mod Trace
pub mod Tests
unfoldable pub use Traceparent.*
use casket.Base.{
  ℕ, ◌+◌, ◌-◌, ◌*◌, ◌^◌, Bool, true, false, not, ◌&&◌, ◌||◌, Option, none, some, List, [], ◌∷◌,
  ◌++◌, Bytes, codes, Result, ok, err, ltb, leb, ◌==◌, if◌then◌else◌, length, resize, replicate,
  overwrite, take, drop, eq_ignore_ascii_case, is_utf8, starts_with, add_usize,
}
use casket.Config.{parse_usize}
use casket.Http.{HttpError, io, header_parse, bad_value, HttpRequest, Context, new_context}

-- What httparse has found when a header is complete.
pub record Parsed : Type 0 where
  pub method : Bytes
  pub path : Bytes
  pub headers : List (Bytes × Bytes)

pub data Status : Type 0 where
  failed : Bytes → Status
  incomplete : Status
  complete : Parsed → ℕ → Status

pub record Library (Method Url : Type 0) : Type 0 where
  pub parse : Bytes → Status
  pub parse_method : Bytes → Option Method
  pub parse_url : Bytes → Option Url

-- The random bytes of a trace id and of a span id.
pub record Random : Type 0 where
  pub trace_id : Bytes
  pub span_id : Bytes

pub record PartialHttpReq (Method Url : Type 0) : Type 0 where
  pub method : Method
  pub headers : List (Bytes × Bytes)
  pub url : Url
  pub content_type : Option Bytes
  pub content_length : ℕ
  pub keep_alive : Bool
  pub body : Bytes
  pub bytes_read : ℕ
  pub context : Context

pub data Reader (Method Url : Type 0) : Type 0 where
  begin : ℕ → Bytes → Reader Method Url
  have_header : PartialHttpReq Method Url → Reader Method Url

pub data State (Method Url : Type 0) : Type 0 where
  partial : Reader Method Url → State Method Url
  completed : HttpRequest Method Url → State Method Url
  stream_eof : State Method Url

-- The variables of the loop over the headers.
pub record Fields : Type 0 where
  pub headers : List (Bytes × Bytes)
  pub content_type : Option Bytes
  pub host : Option Bytes
  pub keep_alive : Bool
  pub content_length : ℕ
  pub context : Option Context

abbrev pub no_fields : Fields
no_fields = record {
  headers = [];
  content_type = none;
  host = none;
  keep_alive = true;
  content_length = 0;
  context = none;
}

-- The fields that cannot fail, in the order of the source, with a length that has been parsed.
unfoldable pub set_fields : Random → Bytes → Bytes → ℕ → Fields → Fields
unfolding parse_context
set_fields random name value content_length f = record {
  headers = f.headers ++ (name, value) ∷ [];
  content_type =
      if eq_ignore_ascii_case name (codes "Content-Type") then some value else f.content_type;
  host = if eq_ignore_ascii_case name (codes "Host") then some value else f.host;
  keep_alive =
      if eq_ignore_ascii_case name (codes "Connection")
        && eq_ignore_ascii_case value (codes "Close")
      then false
      else f.keep_alive;
  content_length = content_length;
  context =
      if eq_ignore_ascii_case name (codes "Traceparent")
      then (elim (parse_context random.span_id value) [ err e ↦ f.context | ok c ↦ some c ])
      else f.context;
}

-- One header.
unfoldable pub set_field : Random → Bytes → Bytes → Fields → Result HttpError Fields
unfolding set_fields parse_usize is_utf8
set_field random name value f =
    if not (is_utf8 [] value)
    then err (bad_value (codes "header value not utf8"))
    else if eq_ignore_ascii_case name (codes "Content-Length")
    then elim (parse_usize value) [
      | none ↦ err (bad_value (codes "Content-Length not uint"))
      | some n ↦ ok (set_fields random name value n f)
    ]
    else ok (set_fields random name value f.content_length f)

unfoldable pub scan_headers : Random → List (Bytes × Bytes) → Fields → Result HttpError Fields
unfolding set_field
scan_headers random [] f = ok f
scan_headers random ((name, value) ∷ rest) f = elim (set_field random name value f) [
  | err e ↦ err e
  | ok f' ↦ scan_headers random rest f'
]

-- `fn url`.
abbrev pub url : {Method Url : Type 0} → Library Method Url → Bytes → Bytes → Result HttpError Url
url lib host path =
    if starts_with path (codes "http://") || starts_with path (codes "https://")
    then elim (lib.parse_url path) [
      | none ↦ err (bad_value (codes "invalid http path"))
      | some u ↦ ok u
    ]
    else if starts_with path (codes "/")
    then elim (lib.parse_url (codes "http://" ++ (host ++ path))) [
      | none ↦ err (bad_value (codes "invalid path in http header"))
      | some u ↦ ok u
    ]
    else err (bad_value (codes "invalid path in http header"))

-- What follows of `PartialHttpReq::new` after the loop.
abbrev pub build :
    {Method Url : Type 0}
    → Library Method Url
    → Random
    → Method
    → Bytes
    → Fields
    → Result HttpError (PartialHttpReq Method Url)
build lib random method path f = elim f.host [
  | none ↦ err (bad_value (codes "http request missing host header"))
  | some host ↦ elim (url lib host path) [
    | err e ↦ err e
    | ok u ↦ ok (record {
      method = method;
      headers = f.headers;
      url = u;
      content_type = f.content_type;
      content_length = f.content_length;
      keep_alive = f.keep_alive;
      body = [];
      bytes_read = 0;
      context = elim f.context [ none ↦ new_context random.trace_id random.span_id | some c ↦ c ];
    })
  ]
]

unfoldable pub new : {Method Url : Type 0} → Reader Method Url
new = begin 0 (replicate 2048 0)

module _ {Method Url : Type 0} (lib : Library Method Url) where
  -- `PartialHttpReq::new`.
  unfoldable pub new_request : Random → Parsed → Result HttpError (PartialHttpReq Method Url)
  unfolding scan_headers
  new_request random request = elim (lib.parse_method request.method) [
    | none ↦ err (bad_value (codes "http request with unrecognised method"))
    | some method ↦ elim (scan_headers random request.headers no_fields) [
      | err e ↦ err e
      | ok f ↦ build lib random method request.path f
    ]
  ]

  -- `Vec::reserve` panics beyond `isize::MAX` bytes.
  unfoldable pub take_body :
      PartialHttpReq Method Url → Bytes → ℕ → Option (Result HttpError (PartialHttpReq Method Url))
  take_body p buffer header_size =
      if ltb p.content_length (length (drop header_size buffer))
      then some (err (bad_value (codes "content-length too large")))
      else if leb (2 ^ 63) p.content_length
      then none
      else some (
          ok (record p {
            body = resize p.content_length 0 (p.body ++ drop header_size buffer);
            bytes_read = length buffer - header_size;
          }))

  abbrev pub is_done : PartialHttpReq Method Url → Bool
  is_done p = p.bytes_read == p.content_length

  abbrev pub to_request : PartialHttpReq Method Url → HttpRequest Method Url
  to_request p = record {
    method = p.method;
    url = p.url;
    headers = p.headers;
    context = p.context;
    keep_alive = p.keep_alive;
    content_type = p.content_type;
    content_length = p.content_length;
    body = some p.body;
  }

  unfoldable pub finish : PartialHttpReq Method Url → State Method Url
  finish p = if is_done p then completed (to_request p) else partial (have_header p)

  abbrev pub grown : ℕ → Bytes → Bytes
  grown buf_len buf = if ltb (length buf - buf_len) 1024 then resize (length buf * 2) 0 buf else buf

  -- What follows a complete header of `header_size` bytes in `buffer`.
  unfoldable pub start_body :
      Random → Parsed → Bytes → ℕ → Option (Result HttpError (State Method Url))
  unfolding new_request take_body finish
  start_body random request buffer header_size = elim (new_request random request) [
    | err e ↦ some (err e)
    | ok p ↦ elim (take_body p buffer header_size) [
      | none ↦ none
      | some (err e) ↦ some (err e)
      | some (ok p') ↦ some (ok (finish p'))
    ]
  ]

  -- With the bytes that have come in `buf`, `buf_len` of them.
  unfoldable pub parse_header : Random → ℕ → Bytes → Option (Result HttpError (State Method Url))
  unfolding start_body
  parse_header random buf_len buf = elim (lib.parse (take buf_len buf)) [
    | failed e ↦ some (err (header_parse e))
    | incomplete ↦ some (ok (partial (begin buf_len buf)))
    | complete request header_size ↦ start_body random request (take buf_len buf) header_size
  ]

  -- `answer` is what the stream's `read` gives: the bytes that it has written, or an error.
  unfoldable pub read_header :
      Random → ℕ → Bytes → Result Bytes Bytes → Option (Result HttpError (State Method Url))
  unfolding parse_header
  read_header random buf_len buf (err e) =
      some (err (io (codes "failed to read tcp stream for server request") e))
  read_header random buf_len buf (ok []) = some (ok stream_eof)
  read_header random buf_len buf (ok (b ∷ bs)) =
      parse_header random (buf_len + length (b ∷ bs))
        (overwrite buf_len (b ∷ bs) (grown buf_len buf))

  unfoldable pub read_body :
      PartialHttpReq Method Url → Result Bytes Bytes → Result HttpError (PartialHttpReq Method Url)
  read_body p (err e) = err (io (codes "failed to ready request body on tcp stream") e)
  read_body p (ok []) = err (bad_value (codes "stream EOF without complete body"))
  read_body p (ok (b ∷ bs)) = ok (record p {
    body = overwrite p.bytes_read (b ∷ bs) p.body;
    bytes_read = p.bytes_read + length (b ∷ bs);
  })

  unfoldable pub read_tcp_stream :
      Random → Reader Method Url → Result Bytes Bytes → Option (Result HttpError (State Method Url))
  unfolding read_header read_body finish
  read_tcp_stream random (begin buf_len buf) answer = read_header random buf_len buf answer
  read_tcp_stream random (have_header p) answer = elim (read_body p answer) [
    | err e ↦ some (err e)
    | ok p' ↦ some (ok (finish p'))
  ]
