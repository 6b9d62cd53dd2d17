-- ===== src/Worker/Writer/Tests.antt =====
-- A response with the body "hi", written in two pieces.
use casket.Base.{
  ℕ, ◌≡◌, refl, true, false, none, some, [], ◌∷◌, ◌++◌, codes, take, arith, consume, shift_down,
  shift_loop, sub_usize, add_usize,
}
use casket.Http.{HttpResponse, write_header}
use casket.Worker.Writer.{Writer, new, write_tcp_stream, take_part, wrote}
use casket.Worker.Writer.Sent.{
  Sending, start, gives, ends, writes, with_body, offered, done_complete,
}

abbrev response : HttpResponse ℕ ℕ
response = record {
  method = 0;
  url = 0;
  code = 200;
  reason = codes "OK";
  context = record { trace_id = codes "ab"; span_id = codes "cd"; parent_id = none };
  keep_alive = true;
  req_headers = [];
  req_content_length = 0;
  resp_headers = (codes "A", codes "b") ∷ [];
  resp_content_length = none;
  resp_body = some (record { parts = []; connected = true });
}

-- The header, and the space behind the reason that the code writes.
header_of_response :
    write_header response
    ≡ codes
        "HTTP/1.1 200 OK \r\nA: b\r\nX-TraceId: ab\r\nConnection: Keep-Alive\r\nServer: Casket\r\n\r\n"
unfolding write_header
header_of_response = refl

abbrev fresh : Writer ℕ ℕ
unfolding new write_header
fresh = new response

abbrev given : Writer ℕ ℕ
given = with_body fresh (some (record { parts = codes "hi" ∷ []; connected = false }))

-- After five bytes.
abbrev half : Writer ℕ ℕ
unfolding write_header
half = record given {
  http_resp = record (given.http_resp) {
    resp_body = some (record { parts = []; connected = false });
  };
  buffer =
      codes
        "1.1 200 OK \r\nA: b\r\nX-TraceId: ab\r\nConnection: Keep-Alive\r\nServer: Casket\r\n\r\nhi";
  bytes_written = 5;
}

half-Sending : Sending response (codes "hi") (codes "HTTP/") half
unfolding fresh half new write_header write_tcp_stream take_part wrote consume shift_down shift_loop
    add_usize
half-Sending =
    writes 5
      (ends (codes "hi" ∷ []) (gives [] (codes "hi") (start refl refl refl refl) refl refl refl)
        refl refl)
      (omega arith) refl refl

abbrev sent : HttpResponse ℕ ℕ
sent = record response { resp_content_length = some 2; resp_body = none }

done_complete_example :
    (codes "HTTP/" ++ take 78 (offered half) ≡ write_header response ++ codes "hi")
    × (sent.resp_content_length ≡ some 2)
unfolding fresh half new write_header write_tcp_stream take_part wrote consume shift_down shift_loop
    add_usize sub_usize
done_complete_example = done_complete 78 half-Sending (omega arith) refl (omega arith)
