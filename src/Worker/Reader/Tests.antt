-- ===== src/Worker/Reader/Tests.antt =====
-- A request of six bytes: the library here takes any four bytes for a header with two bytes to come.
use casket.Base.{
  ℕ, ◌≤◌, ◌≡◌, refl, Option, none, some, [], ◌∷◌, ◌++◌, Bytes, codes, ok, length, replicate, arith,
}
use casket.Http.{from_vals}
use casket.Worker.Reader.{
  Library, Random, Parsed, Status, incomplete, complete, partial, begin, read_tcp_stream,
  read_header, parse_header, parse_context,
}
use casket.Worker.Reader.Body.{IsLibrary, Follows, read_tcp_stream-Follows}
use casket.Worker.Reader.Trace.{
  IsExtension, IsId, traceparent, parse_context-traceparent, parse_context_inv,
}

abbrev request : Parsed
request = record {
  method = codes "GET";
  path = codes "/";
  headers = (codes "Host", codes "h") ∷ (codes "content-length", codes "2") ∷ [];
}

abbrev parse_four : Bytes → Status
parse_four (a ∷ b ∷ c ∷ d ∷ rest) = complete request 4
parse_four _ = incomplete

abbrev pub library : Library Bytes Bytes
library = record { parse = parse_four; parse_method = some; parse_url = some }

parse_four-within :
    (bytes : Bytes) (r : Parsed) (n : ℕ) → parse_four bytes ≡ complete r n → n ≤ length bytes
parse_four-within [] r n h = ground arith
parse_four-within (a ∷ []) r n h = ground arith
parse_four-within (a ∷ b ∷ []) r n h = ground arith
parse_four-within (a ∷ b ∷ c ∷ []) r n h = ground arith
parse_four-within (a ∷ b ∷ c ∷ d ∷ rest) r n h = ground arith

library-IsLibrary : IsLibrary library
library-IsLibrary = record { within = parse_four-within }

abbrev random : Random
random = record { trace_id = replicate 16 7; span_id = replicate 8 255 }

abbrev sent : Bytes
sent = codes "abcdef"

-- The bytes wait until there are four, and then the body follows.
reads_body :
    read_tcp_stream library random (begin 0 (replicate 2048 0)) (ok (codes "abc"))
    ≡ some (ok (partial (begin 3 (codes "abc" ++ replicate 2045 0))))
unfolding read_tcp_stream read_header parse_header
reads_body = refl

read_tcp_stream-Follows_example :
    Follows library random sent
      (read_tcp_stream library random (begin 0 (replicate 2048 0)) (ok sent))
read_tcp_stream-Follows_example =
    read_tcp_stream-Follows library random library-IsLibrary (begin 0 (replicate 2048 0)) [] sent
      (λ e. ground arith) (refl, omega arith, omega arith) (omega arith)

abbrev trace_id : Bytes
trace_id = replicate 32 b'a'

abbrev parent_id : Bytes
parent_id = replicate 16 b'0'

parse_context-traceparent_example :
    parse_context (replicate 8 1) (traceparent trace_id parent_id (some (codes "01")))
    ≡ ok (from_vals (replicate 8 1) trace_id parent_id)
parse_context-traceparent_example =
    parse_context-traceparent (replicate 8 1) trace_id parent_id (some (codes "01")) (refl, refl)
      (refl, refl) ((λ e. ground arith), ((λ e. ground arith), tt))

parse_context_inv_example :
    (t p : Bytes) × (ext : Option Bytes) × (traceparent trace_id parent_id none
      ≡ traceparent t p ext)
    × IsExtension ext
    × IsId 32 t
    × IsId 16 p
    × (from_vals (replicate 8 1) trace_id parent_id ≡ from_vals (replicate 8 1) t p)
parse_context_inv_example =
    parse_context_inv (replicate 8 1) (traceparent trace_id parent_id none)
      (from_vals (replicate 8 1) trace_id parent_id)
      (parse_context-traceparent (replicate 8 1) trace_id parent_id none (refl, refl) (refl, refl)
        tt)
