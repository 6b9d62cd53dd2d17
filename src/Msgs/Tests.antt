-- ===== src/Msgs/Tests.antt =====
-- The messages at concrete inputs, in the format of `Example`.
use casket.Base.{
  ℕ, ◌≤◌, ◌≡◌, refl, true, false, some, none, List, [], ◌∷◌, ◌++◌, arith, Bytes, ok, take,
  replicate, length, overwrite, drop, concat, map, consume, shift_down, codes,
}
use casket.Base.{◌≢◌}
use casket.Base.Map.{lookup, IsMap}
use casket.Msgs.Scan.{IsShort}
use casket.Msgs.WorkerBuffer.Framing.{request-IsFraming}
use casket.Msgs.Wire.{Request, Response, request_frame, response_frame}
use casket.Msgs.Example.{
  request_format, request_format-IsRequestFormat, IsRequest, response_format,
  response_format-IsResponseFormat,
}
use casket.Msgs.ServerBuffer.{ServerMsgBuffer}
use casket.Msgs.ServerBuffer
use casket.Msgs.ServerBuffer.Read.{
  read_responses-Reads, kept, closed, pending as server_pending, IsValid as IsServerValid,
}
use casket.Msgs.ServerBuffer.Write.{write_requests-conserves, outgoing, queued_fds}
use casket.Msgs.WorkerBuffer.{WorkerMsgBuffer}
use casket.Msgs.WorkerBuffer
use casket.Msgs.WorkerBuffer.Read.{
  read_requests-Reads, pending as worker_pending, IsValid as IsWorkerValid,
}
use casket.Msgs.WorkerBuffer.Respond.{
  bad_client, done_ok, reply, response, reply-once, write_responses-conserves,
}
use casket.Msgs.Requests.{Link, request, write, read, take as takes, Reach, start, next}
use casket.Msgs.Requests.Fifo.{taken-fifo, read-succeeds, drained_complete}
use casket.Msgs.Requests.Queue.{messages, streams}

abbrev first : Request
first = record { token = 16777216; fd = 9 }

abbrev second : Request
second = record { token = 33554432; fd = 11 }

abbrev two_queued : ServerMsgBuffer
two_queued = record {
  read_buffer = [];
  read_buf_len = 0;
  stream_tks = [];
  stream_close_tks = [];
  to_send = (first, 9) ∷ (second, 11) ∷ [];
  write_buffer = [];
}

frame_of_first :
    request_frame request_format first ≡ 12 ∷ 0 ∷ 0 ∷ 0 ∷ 1 ∷ 0 ∷ 0 ∷ 0 ∷ 0 ∷ 9 ∷ 0 ∷ 0 ∷ 0 ∷ []
unfolding request_frame
frame_of_first = refl

-- The socket takes one descriptor, and five bytes of the frame.
write_one :
    (ServerBuffer.write_unix_stream request_format two_queued 1 (ok 5)).bytes
    ≡ 12 ∷ 0 ∷ 0 ∷ 0 ∷ 1 ∷ []
unfolding ServerBuffer.write_unix_stream ServerBuffer.enqueue_loop request_frame
write_one = refl

write_requests-conserves_example :
    let w = ServerBuffer.write_unix_stream request_format two_queued 1 (ok 5) in
    (w.bytes ++ outgoing request_format w.state ≡ outgoing request_format two_queued)
    × (w.fds ++ queued_fds w.state.to_send ≡ 9 ∷ 11 ∷ [])
    × (w.state.stream_tks ≡ [])
    × (w.state.stream_close_tks ≡ [])
unfolding ServerBuffer.enqueue_loop request_frame
write_requests-conserves_example =
    write_requests-conserves request_format two_queued 1 (ok 5) (omega arith)

abbrev keep : Response
keep = record { token = 16777216; fd = 9; keep_alive = true; error = none }

abbrev refuse : Response
refuse = record {
  token = 33554432;
  fd = 11;
  keep_alive = false;
  error = some (codes "badly formed client request");
}

abbrev both_frames : Bytes
both_frames = concat (map (response_frame response_format) (keep ∷ refuse ∷ []))

abbrev server : ServerMsgBuffer
server = record {
  read_buffer = replicate 2048 0;
  read_buf_len = 0;
  stream_tks = [];
  stream_close_tks = [];
  to_send = [];
  write_buffer = [];
}

server-IsValid : IsServerValid server
server-IsValid = record { held = omega arith; roomy = omega arith }

-- The second response comes in two pieces.
read_responses-Reads_example :
    (got left : List Response) × (s' : ServerMsgBuffer) × (ServerBuffer.read_unix_stream
        response_format server
        (ok (take 30 both_frames))
      ≡ some (s', ok tt))
    × (keep ∷ refuse ∷ [] ≡ got ++ left)
    × (server_pending s' ++ drop 30 both_frames
        ≡ concat (map (response_frame response_format) left))
    × (drop 30 both_frames ≡ [] → left ≡ [])
    × (s'.stream_tks ≡ kept got)
    × (s'.stream_close_tks ≡ closed got)
    × IsServerValid s'
    × (s'.to_send ≡ [])
    × (s'.write_buffer ≡ [])
unfolding response_frame
read_responses-Reads_example =
    read_responses-Reads response_format-IsResponseFormat server (keep ∷ refuse ∷ [])
      (take 30 both_frames) (drop 30 both_frames) server-IsValid
      (
        record { token = omega arith; fd = omega arith; text = tt },
        (record { token = omega arith; fd = omega arith; text = omega arith }, tt),
      )
      (omega arith) refl

abbrev worker : WorkerMsgBuffer
worker = record {
  read_buffer = replicate 2048 0;
  read_buf_len = 0;
  write_buffer = [];
  server_fds = (16777216, 9) ∷ (33554432, 11) ∷ [];
  stream_fds = [];
  stream_msgs = [];
}

first-IsRequest : IsRequest first
first-IsRequest = record { token = omega arith; fd = omega arith }

second-IsRequest : IsRequest second
second-IsRequest = record { token = omega arith; fd = omega arith }

reply-once_example :
    (s' : WorkerMsgBuffer) × (reply response_format worker 16777216 bad_client ≡ some s')
    × (s'.write_buffer ≡ response_frame response_format (response 16777216 9 bad_client))
    × ((other : ℕ) → other ≢ 16777216 → lookup other s'.server_fds ≡ lookup other worker.server_fds)
    × IsMap s'.server_fds
    × (reply response_format s' 16777216 (done_ok 9 true) ≡ none)
reply-once_example =
    reply-once response_format worker 16777216 9 bad_client (done_ok 9 true) (refl, (refl, tt)) refl

write_responses-conserves_example :
    let w : WorkerMsgBuffer = record worker { write_buffer = 1 ∷ 2 ∷ 3 ∷ [] } in
    let (s', bytes, r) = WorkerBuffer.write_unix_stream w (ok 2) in
    (bytes ++ s'.write_buffer ≡ 1 ∷ 2 ∷ 3 ∷ []) × (length bytes ≡ 2) × (r ≡ ok tt)
write_responses-conserves_example =
    write_responses-conserves (record worker { write_buffer = 1 ∷ 2 ∷ 3 ∷ [] }) 2 (omega arith)

-- A request is made, written, read in two pieces with its stream, and taken.
abbrev empty_link : Link
empty_link = record {
  server = record server { read_buffer = replicate 2048 0 };
  bytes = [];
  fds = [];
  worker = record worker { server_fds = [] };
  taken = [];
}

abbrev requested : Link
requested = record empty_link { server = record server { to_send = (first, 9) ∷ [] } }

abbrev written : Link
written = record empty_link { bytes = request_frame request_format first; fds = 9 ∷ [] }

Reach-written : Reach request_format IsRequest ((16777216, 9) ∷ []) written
unfolding ServerBuffer.new WorkerBuffer.new ServerBuffer.req_tcp_stream_fd ServerBuffer.enqueue_loop
    ServerBuffer.write_unix_stream request_frame consume
Reach-written =
    next
      (next {l = empty_link} {l' = requested} (start refl refl)
        (request 16777216 9 first-IsRequest refl refl))
      (write 1 (ok 13) (omega arith) refl refl)

read-succeeds_example :
    (s : WorkerMsgBuffer) × (WorkerBuffer.read_unix_stream request_format written.worker
        (ok (take 5 (request_frame request_format first)))
        (9 ∷ [])
      ≡ some (s, ok tt))
    × (s.read_buf_len ≤ 12)
unfolding request_frame
read-succeeds_example =
    read-succeeds request_format-IsRequestFormat (take 5 (request_frame request_format first))
      (drop 5 (request_frame request_format first)) (9 ∷ []) Reach-written refl (omega arith)

read_worker : WorkerMsgBuffer
unfolding request_frame
read_worker = record {
  read_buffer =
      shift_down 0 13 (overwrite 0 (request_frame request_format first) (replicate 2048 0));
  read_buf_len = 0;
  write_buffer = [];
  server_fds = [];
  stream_fds = 9 ∷ [];
  stream_msgs = first ∷ [];
}

Reach-read :
    Reach request_format IsRequest
      ((16777216, 9) ∷ [])
      (record written { bytes = []; fds = []; worker = read_worker })
unfolding read_worker WorkerBuffer.read_unix_stream request_frame shift_down
Reach-read = next Reach-written (
    read (request_frame request_format first) [] (9 ∷ []) [] read_worker refl refl (omega arith)
      refl refl refl)

drained_complete_example :
    (rest : List (ℕ × ℕ)) × ((16777216, 9) ∷ [] ≡ rest)
    × (read_worker.stream_msgs ≡ messages rest)
    × (read_worker.stream_fds ≡ streams rest)
unfolding ServerBuffer.has_data_to_send
drained_complete_example = drained_complete request_format-IsRequestFormat Reach-read refl refl refl

taken_worker : WorkerMsgBuffer
unfolding read_worker
taken_worker = record read_worker {
  stream_fds = [];
  stream_msgs = [];
  server_fds = (16777216, 9) ∷ [];
}

Reach-taken :
    Reach request_format IsRequest
      ((16777216, 9) ∷ [])
      (record written { bytes = []; fds = []; worker = taken_worker; taken = (16777216, 9) ∷ [] })
unfolding read_worker taken_worker WorkerBuffer.next_stream_fd
Reach-taken = next Reach-read (takes taken_worker 16777216 9 refl refl refl)

taken-fifo_example : (rest : List (ℕ × ℕ)) × ((16777216, 9) ∷ [] ≡ (16777216, 9) ∷ rest)
taken-fifo_example = taken-fifo request_format-IsRequestFormat Reach-taken

read_requests-Reads_example :
    (got left : List Request) × (s' : WorkerMsgBuffer) × (WorkerBuffer.read_unix_stream
        request_format worker
        (ok (take 20 (request_frame request_format first ++ request_frame request_format second)))
        (9 ∷ [])
      ≡ some (s', ok tt))
    × (first ∷ second ∷ [] ≡ got ++ left)
    × (worker_pending s'
          ++ drop 20 (request_frame request_format first ++ request_frame request_format second)
        ≡ concat (map (request_frame request_format) left))
    × IsShort (request-IsFraming request_format-IsRequestFormat) left (worker_pending s')
    × (s'.stream_msgs ≡ got)
    × (s'.stream_fds ≡ 9 ∷ [])
    × IsWorkerValid s'
unfolding request_frame
read_requests-Reads_example =
    let all = request_frame request_format first ++ request_frame request_format second in
    read_requests-Reads request_format-IsRequestFormat worker (first ∷ second ∷ []) (take 20 all)
      (drop 20 all) (9 ∷ []) (record { held = omega arith; fixed = refl })
      (first-IsRequest, (second-IsRequest, tt)) (omega arith) refl
