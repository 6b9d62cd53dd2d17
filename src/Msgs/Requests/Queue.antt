-- ===== src/Msgs/Requests/Queue.antt =====
-- The link as a queue: what the server writes goes behind what is there.
use casket.Base.{
  ℕ, ◌≡◌, refl, sym, ◌∙◌, ap, List, [], ◌∷◌, ◌++◌, map, map-append, append_assoc, append-nil, arith,
  Bytes, Result, length, concat, concat-append, All, All-append,
}
use casket.Msgs.Wire.{Request, Format, IsRequestFormat, request_frame}
use casket.Msgs.Scan.{wire, IsShort}
use casket.Msgs.ServerBuffer.{ServerMsgBuffer}
use casket.Msgs.ServerBuffer
use casket.Msgs.ServerBuffer.Write.{
  queued_fds, outgoing, write_requests-conserves, outgoing-req_tcp_stream_fd, IsTaken,
}
use casket.Msgs.WorkerBuffer.{WorkerMsgBuffer}
use casket.Msgs.WorkerBuffer
use casket.Msgs.WorkerBuffer.Framing.{request-IsFraming, length-request_frame}
use casket.Msgs.WorkerBuffer.Read.{IsValid, pending}
use casket.Msgs.Requests.{Link}

abbrev pub messages : List (ℕ × ℕ) → List Request
messages = map (λ r. record { token = r.0; fd = r.1 })

abbrev pub streams : List (ℕ × ℕ) → List ℕ
streams = map (λ r. r.1)

module _ {f : Format Request} {IsSendable : Request → Type 0}
    (format : IsRequestFormat f IsSendable) where
  -- `rest` are the requests that the worker has not taken, `left` their messages that it has
  -- not decoded.
  pub record IsFifo (reqs rest : List (ℕ × ℕ)) (left : List Request) (l : Link) : Type 0 where
    pub order : reqs ≡ l.taken ++ rest
    pub msgs : messages rest ≡ l.worker.stream_msgs ++ left
    pub fds : streams rest ≡ l.worker.stream_fds ++ (l.fds ++ queued_fds l.server.to_send)
    pub bytes :
        pending l.worker ++ (l.bytes ++ outgoing f l.server) ≡ wire (request-IsFraming format) left
    pub short : IsShort (request-IsFraming format) left (pending l.worker)
    pub sendable : All IsSendable left
    pub valid : IsValid l.worker

  pub start-IsFifo : IsFifo [] [] [] (record {
    server = ServerBuffer.new;
    bytes = [];
    fds = [];
    worker = WorkerBuffer.new;
    taken = [];
  })
  unfolding ServerBuffer.new WorkerBuffer.new
  start-IsFifo = record {
    order = refl;
    msgs = refl;
    fds = refl;
    bytes = refl;
    short = refl;
    sendable = tt;
    valid = record { held = omega arith; fixed = refl };
  }

  IsShort-append :
      (left : List Request) (m : Request) (r : Bytes)
      → IsSendable m
      → IsShort (request-IsFraming format) left r
      → IsShort (request-IsFraming format) (left ++ m ∷ []) r
  IsShort-append [] m r s h = omega (arith, ap length h, length-request_frame format m s)
  IsShort-append (x ∷ left) m r s h = h

  pub wire-append :
      (left : List Request) (m : Request)
      → wire (request-IsFraming format) (left ++ m ∷ [])
        ≡ wire (request-IsFraming format) left ++ request_frame f m
  wire-append left m =
      ap concat (map-append (request_frame f) left (m ∷ []))
      ∙ concat-append (map (request_frame f) left) (request_frame f m ∷ [])
      ∙ ap (◌++◌ (wire (request-IsFraming format) left)) (append-nil (request_frame f m))

  pub append_behind : (a b c d : Bytes) → a ++ (b ++ (c ++ d)) ≡ (a ++ (b ++ c)) ++ d
  append_behind a b c d = simp append_assoc

  pub request-IsFifo :
      (reqs rest : List (ℕ × ℕ)) (left : List Request) (l : Link) (tk fd : ℕ)
      → IsSendable (record { token = tk; fd = fd })
      → IsFifo reqs rest left l
      → IsFifo
          (reqs ++ (tk, fd) ∷ [])
          (rest ++ (tk, fd) ∷ [])
          (left ++ record { token = tk; fd = fd } ∷ [])
          (record l { server = ServerBuffer.req_tcp_stream_fd l.server tk fd })
  unfolding ServerBuffer.req_tcp_stream_fd
  request-IsFifo reqs rest left l tk fd s v =
      let m : Request = record { token = tk; fd = fd } in
      record {
        order = ap (λ r. r ++ (tk, fd) ∷ []) v.order ∙ append_assoc l.taken rest ((tk, fd) ∷ []);
        msgs =
            map-append _ rest ((tk, fd) ∷ [])
            ∙ ap (λ r. r ++ m ∷ []) v.msgs
            ∙ append_assoc l.worker.stream_msgs left (m ∷ []);
        fds =
            map-append _ rest ((tk, fd) ∷ [])
            ∙ ap (λ r. r ++ fd ∷ []) v.fds
            ∙ simp (append_assoc, map-append);
        bytes =
            ap (λ o. pending l.worker ++ (l.bytes ++ o))
              (outgoing-req_tcp_stream_fd f l.server tk fd)
            ∙ append_behind (pending l.worker) l.bytes (outgoing f l.server) (request_frame f m)
            ∙ ap (λ r. r ++ request_frame f m) v.bytes
            ∙ sym (wire-append left m);
        short = IsShort-append left m (pending l.worker) s v.short;
        sendable = All-append IsSendable left (m ∷ []) v.sendable (s, tt);
        valid = v.valid;
      }

  pub write-IsFifo :
      (reqs rest : List (ℕ × ℕ)) (left : List Request) (l : Link) (room : ℕ)
      (answer : Result Bytes ℕ)
      → IsTaken answer (ServerBuffer.enqueue_loop f room l.server.to_send l.server.write_buffer).1
      → IsFifo reqs rest left l
      → let w = ServerBuffer.write_unix_stream f l.server room answer in
        IsFifo reqs rest left
          (record l { server = w.state; bytes = l.bytes ++ w.bytes; fds = l.fds ++ w.fds })
  write-IsFifo reqs rest left l room answer h v =
      let w = ServerBuffer.write_unix_stream f l.server room answer in
      let (bytes, fds, _, _) = write_requests-conserves f l.server room answer h in
      record {
        order = v.order;
        msgs = v.msgs;
        fds =
            v.fds
            ∙ ap (λ r. l.worker.stream_fds ++ (l.fds ++ r)) (sym fds)
            ∙ ap (◌++◌ l.worker.stream_fds)
                (sym (append_assoc l.fds w.fds (queued_fds w.state.to_send)));
        bytes =
            ap (◌++◌ (pending l.worker)) (append_assoc l.bytes w.bytes (outgoing f w.state))
            ∙ ap (λ r. pending l.worker ++ (l.bytes ++ r)) bytes
            ∙ v.bytes;
        short = v.short;
        sendable = v.sendable;
        valid = v.valid;
      }
