-- ===== src/Worker/Writer.antt =====
-- src/worker/serverwriter.rs: a response on its way to the client.
pub mod Sent
pub mod Tests
use casket.Base.{
  ℕ, ◌+◌, ◌-◌, Bool, true, false, ◌&&◌, Option, none, some, List, [], ◌∷◌, ◌++◌, Bytes, codes,
  Result, ok, err, if◌then◌else◌, length, is_empty, consume, add_usize, sub_usize, take,
}
use casket.Http.{HttpError, io, HttpResponse, Receiver, write_header}

pub data State (Writer Response : Type 0) : Type 0 where
  partial : Writer → State Writer Response
  done : Response → State Writer Response

pub record Writer (Method Url : Type 0) : Type 0 where
  pub http_resp : HttpResponse Method Url
  pub buffer : Bytes
  pub header_size : ℕ
  pub bytes_written : ℕ

-- `try_recv` on the body: the buffer then, and the receiver unless the sender has gone.
unfoldable pub take_part : Option Receiver → Bytes → Option Receiver × Bytes
take_part none buffer = (none, buffer)
take_part (some body) buffer = elim body.parts [
  | [] ↦ if body.connected then (some body, buffer) else (none, buffer)
  | part ∷ parts ↦ (some (record body { parts = parts }), buffer ++ part)
]

abbrev pub is_none : Option Receiver → Bool
is_none none = true
is_none (some _) = false

module _ {Method Url : Type 0} where
  unfoldable pub new : HttpResponse Method Url → Writer Method Url
  new r = record {
    http_resp = r;
    buffer = write_header r;
    header_size = length (write_header r);
    bytes_written = 0;
  }

  -- After a write that has taken `n` bytes of the buffer.
  unfoldable pub wrote :
      Writer Method Url
      → Option Receiver
      → Bytes
      → ℕ
      → State (Writer Method Url) (HttpResponse Method Url)
  wrote w body buffer n =
      let left = consume n buffer in
      let written = add_usize w.bytes_written n in
      if is_empty left && is_none body
      then done (record (w.http_resp) {
        resp_body = none;
        resp_content_length = some (sub_usize written w.header_size);
      })
      else partial (record w {
        http_resp = record (w.http_resp) { resp_body = body };
        buffer = left;
        bytes_written = written;
      })

  -- `answer` is what the socket's `write` gives: how many bytes it has taken, or an error.
  unfoldable pub write_tcp_stream :
      Writer Method Url
      → Result Bytes ℕ
      → Result HttpError (State (Writer Method Url) (HttpResponse Method Url))
  unfolding take_part wrote
  write_tcp_stream w answer =
      let (body, buffer) = take_part w.http_resp.resp_body w.buffer in
      elim answer [
        | err e ↦ err (io (codes "failed to write response to tcp stream") e)
        | ok n ↦ ok (wrote w body buffer n)
      ]
