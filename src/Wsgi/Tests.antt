-- ===== src/Wsgi/Tests.antt =====
-- A request of two lines, and a body of two chunks with an error between them.
use casket.Base.{
  eq_bytes, ℕ, ◌≡◌, true, refl, false, none, some, [], ◌∷◌, ◌++◌, Bytes, codes, ok, err, replicate,
  arith,
}
use casket.Config.{Config, default}
use casket.Http.{HttpRequest}
use casket.Python.{new_err}
use casket.Wsgi.Environ.{HttpTypes, build_environ, get_item, str, http_key}
use casket.Wsgi.Headers.{build_environ-get_item}
use casket.Wsgi.{
  WsgiInput, new, read, readline, readlines, readlines_loop, find_newline, Chunks, new_iter,
  next_body_chunk, stream_body, handle_wsgi_exec_err,
}
use casket.Wsgi.Body.{stream_body-yielded, handle_wsgi_exec_err_same}
use casket.Wsgi.Input.{read_all, read_all_rest, readline-IsLine, IsLine, readline_stuck, lines}

abbrev two_lines : Bytes
two_lines = codes "ab\ncd"

read_all_rest_example :
    let (s, got) = read_all (new two_lines) (some 2 ∷ some 9 ∷ []) in
    got ++ (read s none).1 ≡ two_lines
read_all_rest_example = read_all_rest (some 2 ∷ some 9 ∷ []) two_lines

abbrev input : WsgiInput
input = record { body = two_lines; pos = 0 }

readline-IsLine_example : IsLine input (readline input)
readline-IsLine_example = readline-IsLine input

-- `readlines(3)`.
three_lines :
    readlines 9 input (some 3)
    ≡ some (record { body = two_lines; pos = 2 }, codes "ab" ∷ [] ∷ [] ∷ [])
unfolding readlines readlines_loop readline find_newline
three_lines = refl

readline_stuck_example : lines 4 input ≡ codes "ab" ∷ replicate 3 []
unfolding readline find_newline
readline_stuck_example = readline_stuck input 3 (λ e. ground arith)

abbrev chunks : Chunks
chunks = ok (codes "a") ∷ err (new_err (codes "ValueError")) ∷ ok (codes "b") ∷ []

stream_body-yielded_example :
    stream_body 4 (record {
      next_val = some (codes "a");
      bytes_iter = err (new_err (codes "ValueError")) ∷ ok (codes "b") ∷ [];
    })
    ≡ some (codes "a" ∷ codes "b" ∷ [])
unfolding new_iter next_body_chunk
stream_body-yielded_example =
    stream_body-yielded chunks
      (record {
        next_val = some (codes "a");
        bytes_iter = err (new_err (codes "ValueError")) ∷ ok (codes "b") ∷ [];
      })
      refl

abbrev cfg : Config
unfolding default
cfg = record (default none) { body_stacktrace = false }

handle_wsgi_exec_err_same_example :
    handle_wsgi_exec_err cfg
      (record { traceback = codes "secret"; value = codes "x"; py_err = new_err [] })
    ≡ handle_wsgi_exec_err cfg (record { traceback = []; value = []; py_err = new_err [] })
unfolding cfg
handle_wsgi_exec_err_same_example =
    handle_wsgi_exec_err_same cfg
      (record { traceback = codes "secret"; value = codes "x"; py_err = new_err [] })
      (record { traceback = []; value = []; py_err = new_err [] }) refl

abbrev types : HttpTypes Bytes Bytes
types = record { method_text = λ m. m; path = λ u. u; query = λ u. none }

-- Two headers whose names give one key, and one that is spelled like another key.
abbrev request : HttpRequest Bytes Bytes
request = record {
  method = codes "get";
  url = codes "/";
  headers =
      (codes "X-Id", codes "1") ∷ (codes "x_id", codes "2") ∷ (codes "wsgi.errors", codes "3") ∷ [];
  context = record { trace_id = codes "t"; span_id = codes "s"; parent_id = none };
  keep_alive = true;
  content_type = none;
  content_length = 0;
  body = none;
}

abbrev server : Bytes × ℕ
server = (codes "casket", 8080)

build_environ-get_item_example :
    get_item (codes "HTTP_X_ID") (build_environ types server request).1 ≡ some (str (codes "2"))
unfolding http_key eq_bytes
build_environ-get_item_example = build_environ-get_item types server request (codes "HTTP_X_ID")
