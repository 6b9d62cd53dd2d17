-- ===== src/Wsgi/StartResponse.antt =====
-- src/pythonexec/wsgi.rs: the `start_response` that an application is given.
-- The httparse library's parser of a response is a parameter: it fails, or gives the status code
-- and the reason where they are there.
use casket.Base.{ℕ, Option, none, some, List, [], ◌∷◌, ◌++◌, Bytes, codes, Result, ok, err}
use casket.Python.{PyAny, PyErr, PyHeader, new_err}
use casket.ReqLocal.{ReqLocal, put_response_header}

abbrev pub ParseResponse : Type 0
ParseResponse = Bytes → Option (Option ℕ × Option Bytes)

abbrev not_valid : PyErr
not_valid = new_err (codes "status string given to start_response not valid")

unfoldable pub parse_status : ParseResponse → Bytes → Result PyErr (ℕ × Bytes)
parse_status parse status = elim (parse (codes "HTTP/1.1 " ++ (status ++ codes "\r\n"))) [
  | none ↦ err not_valid
  | some (none, _) ↦ err (new_err (codes "status string given to start response missing code"))
  | some (some code, none) ↦ err not_valid
  | some (some code, some reason) ↦ ok (code, reason)
]

abbrev text : PyAny → Result PyErr Bytes
text v = elim v.as_string [ ok s ↦ ok s.to_string | err e ↦ err e ]

-- One round of the loop over the headers.
unfoldable pub header_pair : PyHeader → Result PyErr (Bytes × Bytes)
header_pair (err e) = err e
header_pair (ok (k ∷ v ∷ [])) = elim (text k) [
  | err e ↦ err e
  | ok key ↦ elim (text v) [ err e ↦ err e | ok value ↦ ok (key, value) ]
]
header_pair (ok []) = err (new_err (codes "headers should be a list of tuples"))
header_pair (ok (k ∷ [])) = err (new_err (codes "headers should be a list of tuples"))
header_pair (ok (k ∷ v ∷ w ∷ rest)) = err (new_err (codes "headers should be a list of tuples"))

unfoldable pub header_pairs : List PyHeader → Result PyErr (List (Bytes × Bytes))
unfolding header_pair
header_pairs [] = ok []
header_pairs (h ∷ hs) = elim (header_pair h) [
  | err e ↦ err e
  | ok pair ↦ elim (header_pairs hs) [ err e ↦ err e | ok pairs ↦ ok (pair ∷ pairs) ]
]

-- `StartResponse::__call__`.
unfoldable pub start_response :
    ParseResponse → Bytes → List PyHeader → ReqLocal → ReqLocal × Result PyErr (Unit {0})
unfolding parse_status header_pairs
start_response parse status headers s = elim (parse_status parse status) [
  | err e ↦ (s, err e)
  | ok (code, reason) ↦ elim (header_pairs headers) [
    | err e ↦ (s, err e)
    | ok pairs ↦
        (put_response_header (record { code = code; reason = reason; headers = pairs }) s, ok tt)
  ]
]
