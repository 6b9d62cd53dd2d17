-- ===== src/Http.antt =====
-- src/http/mod.rs: requests, responses and their trace contexts.
-- `Method` and `Url` are the types of the http_types library. A body's receiver is what its channel
-- holds, and whether the sender still lives. What the random generator gives is an argument.
use casket.Base.{
  ℕ, ◌+◌, ◌-◌, ◌/◌, ◌%◌, Bool, Option, none, some, List, [], ◌∷◌, ◌++◌, Bytes, codes, if◌then◌else◌,
  eq_ignore_ascii_case, to_decimal, concat, map, ltb,
}
use casket.Config.{parse_usize}

pub data HttpError : Type 0 where
  io : Bytes → Bytes → HttpError
  header_parse : Bytes → HttpError
  bad_value : Bytes → HttpError

pub record Context : Type 0 where
  pub trace_id : Bytes
  pub span_id : Bytes
  pub parent_id : Option Bytes

pub record Receiver : Type 0 where
  pub parts : List Bytes
  pub connected : Bool

pub record HttpRequest (Method Url : Type 0) : Type 0 where
  pub method : Method
  pub url : Url
  pub headers : List (Bytes × Bytes)
  pub context : Context
  pub keep_alive : Bool
  pub content_type : Option Bytes
  pub content_length : ℕ
  pub body : Option Bytes

pub record HttpResponseHeader : Type 0 where
  pub code : ℕ
  pub reason : Bytes
  pub headers : List (Bytes × Bytes)

pub record HttpResponse (Method Url : Type 0) : Type 0 where
  pub method : Method
  pub url : Url
  pub code : ℕ
  pub reason : Bytes
  pub context : Context
  pub keep_alive : Bool
  pub req_headers : List (Bytes × Bytes)
  pub req_content_length : ℕ
  pub resp_headers : List (Bytes × Bytes)
  pub resp_content_length : Option ℕ
  pub resp_body : Option Receiver

-- The loop over the application's headers: the last length that is a number counts. The name is
-- spelled as in the source.
unfoldable pub scan_content_length : Option ℕ → List (Bytes × Bytes) → Option ℕ
unfolding parse_usize
scan_content_length found [] = found
scan_content_length found ((name, value) ∷ rest) =
    scan_content_length
      (if eq_ignore_ascii_case name (codes "Content-Lenth")
        then (elim (parse_usize value) [ none ↦ found | some n ↦ some n ])
        else found)
      rest

abbrev hex_digit : ℕ → ℕ
hex_digit n = if ltb n 10 then b'0' + n else b'a' + (n - 10)

-- `hex::encode`.
abbrev pub hex_encode : Bytes → Bytes
hex_encode [] = []
hex_encode (b ∷ bs) = hex_digit (b / 16) ∷ hex_digit (b % 16) ∷ hex_encode bs

-- `Context::new`, from the random bytes.
unfoldable pub new_context : Bytes → Bytes → Context
new_context trace_id span_id = record {
  trace_id = hex_encode trace_id;
  span_id = hex_encode span_id;
  parent_id = none;
}

unfoldable pub from_vals : Bytes → Bytes → Bytes → Context
from_vals span_id trace_id parent_id = record {
  trace_id = trace_id;
  span_id = hex_encode span_id;
  parent_id = some parent_id;
}

abbrev pub header_line : Bytes → Bytes → Bytes
header_line name value = name ++ (codes ": " ++ (value ++ codes "\r\n"))

abbrev pub header_lines : List (Bytes × Bytes) → Bytes
header_lines headers = concat (map (λ h. header_line h.0 h.1) headers)

module _ {Method Url : Type 0} where
  unfoldable pub into_http_response :
      HttpRequest Method Url → HttpResponseHeader → Receiver → HttpResponse Method Url
  unfolding scan_content_length
  into_http_response req header body = record {
    method = req.method;
    url = req.url;
    code = header.code;
    reason = header.reason;
    context = req.context;
    keep_alive = req.keep_alive;
    req_headers = req.headers;
    req_content_length = req.content_length;
    resp_headers = header.headers;
    resp_content_length = scan_content_length none header.headers;
    resp_body = some body;
  }

  abbrev pub status_line : HttpResponse Method Url → Bytes
  status_line r =
      codes "HTTP/1.1 "
      ++ (to_decimal 5 r.code ++ (codes " " ++ (r.reason ++ (codes " " ++ codes "\r\n"))))

  -- The buffer's content after `write_header`, which clears it first.
  unfoldable pub write_header : HttpResponse Method Url → Bytes
  write_header r =
      status_line r
      ++ (header_lines r.resp_headers
          ++ (header_line (codes "X-TraceId") r.context.trace_id
              ++ (header_line (codes "Connection")
                    (if r.keep_alive then codes "Keep-Alive" else codes "Close")
                  ++ (header_line (codes "Server") (codes "Casket") ++ codes "\r\n"))))
