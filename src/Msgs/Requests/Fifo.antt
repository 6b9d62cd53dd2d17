-- ===== src/Msgs/Requests/Fifo.antt =====
-- The link is a queue: first in, first out.
use casket.Base.{
  ℕ, ◌+◌, ◌≤◌, ◌≡◌, refl, sym, ◌∙◌, ap, List, [], ◌∷◌, ◌++◌, map, append_assoc, append-nil, arith,
  Bytes, ok, some, length, concat, All, subst,
}
use casket.Base.{false}
use mathlib.Core.Path.{subst₂, ap₂}
use casket.Base.Map.{insert}
use casket.Msgs.Wire.{Request, Format, IsRequestFormat, request_frame}
use casket.Msgs.Scan.{wire, IsShort-done}
use casket.Msgs.ServerBuffer.{ServerMsgBuffer}
use casket.Msgs.ServerBuffer
use casket.Msgs.ServerBuffer.Write.{queued_fds, outgoing}
use casket.Msgs.WorkerBuffer.{WorkerMsgBuffer}
use casket.Msgs.WorkerBuffer
use casket.Msgs.WorkerBuffer.Framing.{request-IsFraming}
use casket.Msgs.WorkerBuffer.Read.{pending, read_requests-Reads, All-right}
use casket.Msgs.Requests.{Link, Step, request, write, read, take, Reach, start, next}
use casket.Msgs.Requests.Queue.{
  messages, streams, IsFifo, start-IsFifo, request-IsFifo, write-IsFifo,
}

idle_lem :
    (s : ServerMsgBuffer)
    → ServerBuffer.has_data_to_send s ≡ false
    → (s.to_send ≡ []) × (s.write_buffer ≡ [])
unfolding ServerBuffer.has_data_to_send
idle_lem s e = ground arith

-- What a successful `next_stream_fd` took.
next_stream_fd_inv :
    (w s : WorkerMsgBuffer) (tk fd : ℕ) (fds : List ℕ) (ms : List Request)
    → w.stream_fds ≡ fds
    → w.stream_msgs ≡ ms
    → WorkerBuffer.next_stream_fd w ≡ (s, some (tk, fd))
    → (m : Request) × (fds' : List ℕ) × (ms' : List Request) × (fds ≡ fd ∷ fds')
      × (ms ≡ m ∷ ms')
      × (m.token ≡ tk)
      × (s ≡ record w {
        stream_fds = fds';
        stream_msgs = ms';
        server_fds = insert m.token m.fd w.server_fds;
      })
unfolding WorkerBuffer.next_stream_fd
next_stream_fd_inv w s tk fd [] ms e e' h = ground arith
next_stream_fd_inv w s tk fd (x ∷ fds) [] e e' h = ground arith
next_stream_fd_inv w s tk fd (x ∷ fds) (m ∷ ms) e e' h =
    (m, fds, ms, ground arith, refl, ground arith, ground arith)

module _ {f : Format Request} {IsSendable : Request → Type 0}
    (format : IsRequestFormat f IsSendable) where
  regroup : (a b c d : List ℕ) → a ++ ((b ++ c) ++ d) ≡ (a ++ b) ++ (c ++ d)
  regroup a b c d = simp append_assoc

  read-IsFifo :
      (reqs rest : List (ℕ × ℕ)) (left : List Request) (l : Link) (chunk tail : Bytes)
      (got fds : List ℕ) (s : WorkerMsgBuffer)
      → l.bytes ≡ chunk ++ tail
      → l.fds ≡ got ++ fds
      → l.worker.read_buf_len + length chunk ≤ 2048
      → WorkerBuffer.read_unix_stream f l.worker (ok chunk) got ≡ some (s, ok tt)
      → IsFifo format reqs rest left l
      → (left' : List Request) × IsFifo format reqs rest left'
          (record l { bytes = tail; fds = fds; worker = s })
  read-IsFifo reqs rest left l chunk tail got fds s eb ef room e v =
      let q = tail ++ outgoing f l.server in
      let all : pending l.worker ++ (chunk ++ q) ≡ wire (request-IsFraming format) left =
        ap (◌++◌ (pending l.worker)) (
          sym (append_assoc chunk tail (outgoing f l.server))
          ∙ ap (λ b. b ++ outgoing f l.server) (sym eb))
        ∙ v.bytes in
      let (ms, left', s', r, split, others, short, msgs, sfds, valid) =
        read_requests-Reads format l.worker left chunk q got v.valid v.sendable room all in
      let same : s' ≡ s = cc in
      let fifo : IsFifo format reqs rest left' (record l { bytes = tail; fds = fds; worker = s' }) =
        record {
          order = v.order;
          msgs =
              v.msgs
              ∙ ap (◌++◌ l.worker.stream_msgs) split
              ∙ sym (append_assoc l.worker.stream_msgs ms left')
              ∙ ap (λ r. r ++ left') (sym msgs);
          fds =
              v.fds
              ∙ ap (λ r. l.worker.stream_fds ++ (r ++ queued_fds l.server.to_send)) ef
              ∙ regroup l.worker.stream_fds got fds (queued_fds l.server.to_send)
              ∙ ap (λ r. r ++ (fds ++ queued_fds l.server.to_send)) (sym sfds);
          bytes = others;
          short = short;
          sendable = All-right format ms left' (subst (All IsSendable) split v.sendable);
          valid = valid;
        } in
      (
        left',
        subst
            (λ w. IsFifo format reqs rest left' (record l { bytes = tail; fds = fds; worker = w }))
            same fifo,
      )

  take-IsFifo :
      (reqs rest : List (ℕ × ℕ)) (left : List Request) (l : Link) (s : WorkerMsgBuffer) (tk fd : ℕ)
      → WorkerBuffer.next_stream_fd l.worker ≡ (s, some (tk, fd))
      → IsFifo format reqs rest left l
      → (rest' : List (ℕ × ℕ)) × IsFifo format reqs rest' left
          (record l { worker = s; taken = l.taken ++ (tk, fd) ∷ [] })
  take-IsFifo reqs [] left l s tk fd e v =
      let (m, fds, ms, ef, em, _, _) =
        next_stream_fd_inv l.worker s tk fd l.worker.stream_fds l.worker.stream_msgs refl refl e in
      let none_left : [] ≡ m ∷ (ms ++ left) = v.msgs ∙ ap (λ r. r ++ left) em in cc
  take-IsFifo reqs ((tk', fd') ∷ rest) left l s tk fd e v =
      let (m, fds, ms, ef, em, et, es) =
        next_stream_fd_inv l.worker s tk fd l.worker.stream_fds l.worker.stream_msgs refl refl e in
      let front : record { token = tk'; fd = fd' } ∷ messages rest ≡ m ∷ (ms ++ left) =
        v.msgs ∙ ap (λ r. r ++ left) em in
      let behind = l.fds ++ queued_fds l.server.to_send in
      let stream : fd' ∷ streams rest ≡ fd ∷ (fds ++ behind) = v.fds ∙ ap (λ r. r ++ behind) ef in
      let head : ◌≡◌ {A = Request} (record { token = tk'; fd = fd' }) m = cc in
      let same_tk : tk' ≡ tk = ap (λ (r : Request). r.token) head ∙ et in
      let same_fd : fd' ≡ fd = cc in
      let u : WorkerMsgBuffer = record (l.worker) {
        stream_fds = fds;
        stream_msgs = ms;
        server_fds = insert m.token m.fd l.worker.server_fds;
      } in
      let fifo : IsFifo format reqs rest left
          (record l { worker = u; taken = l.taken ++ (tk, fd) ∷ [] }) =
        record {
          order =
              v.order
              ∙ ap (λ r. l.taken ++ r ∷ rest) (λ i. (same_tk i, same_fd i))
              ∙ sym (append_assoc l.taken ((tk, fd) ∷ []) rest);
          msgs = cc;
          fds = cc;
          bytes = v.bytes;
          short = v.short;
          sendable = v.sendable;
          valid = record { held = v.valid.held; fixed = v.valid.fixed };
        } in
      (
        rest,
        subst
            (λ w.
              IsFifo format reqs rest left
                (record l { worker = w; taken = l.taken ++ (tk, fd) ∷ [] }))
            (sym es) fifo,
      )

  -- One step keeps the queue.
  Step-IsFifo :
      {reqs reqs' : List (ℕ × ℕ)} {l l' : Link} (rest : List (ℕ × ℕ)) (left : List Request)
      → IsFifo format reqs rest left l
      → Step f IsSendable reqs l reqs' l'
      → (rest' : List (ℕ × ℕ)) × (left' : List Request) × IsFifo format reqs' rest' left' l'
  Step-IsFifo {reqs} {l = l} rest left v (request tk fd s er el) = (
    rest ++ (tk, fd) ∷ [],
    left ++ record { token = tk; fd = fd } ∷ [],
    subst₂
        (λ r k.
          IsFifo format r (rest ++ (tk, fd) ∷ []) (left ++ record { token = tk; fd = fd } ∷ []) k)
        (sym er) (sym el) (request-IsFifo format reqs rest left l tk fd s v),
  )
  Step-IsFifo {reqs} {l = l} rest left v (write room answer h er el) = (
    rest,
    left,
    subst₂ (λ r k. IsFifo format r rest left k) (sym er) (sym el)
        (write-IsFifo format reqs rest left l room answer h v),
  )
  Step-IsFifo {reqs} {l = l} rest left v (read chunk tail got fds s eb ef room e er el) =
      let (left', v') = read-IsFifo reqs rest left l chunk tail got fds s eb ef room e v in
      (rest, left', subst₂ (λ r k. IsFifo format r rest left' k) (sym er) (sym el) v')
  Step-IsFifo {reqs} {l = l} rest left v (take s tk fd e er el) =
      let (rest', v') = take-IsFifo reqs rest left l s tk fd e v in
      (rest', left, subst₂ (λ r k. IsFifo format r rest' left k) (sym er) (sym el) v')

  Reach-IsFifo :
      {reqs : List (ℕ × ℕ)} {l : Link}
      → Reach f IsSendable reqs l
      → (rest : List (ℕ × ℕ)) × (left : List Request) × IsFifo format reqs rest left l
  Reach-IsFifo (start er el) =
      ([], [], subst₂ (λ r k. IsFifo format r [] [] k) (sym er) (sym el) (start-IsFifo format))
  Reach-IsFifo (next r s) = let (rest, left, v) = Reach-IsFifo r in Step-IsFifo rest left v s

  -- After any interleaving of requests, writes, reads and takes, with the socket taking and giving
  -- any number of bytes and descriptors at a time and failing at will: the worker has taken a
  -- front part of the requests, each token with the stream that the server sent under it.
  pub taken-fifo :
      {reqs : List (ℕ × ℕ)} {l : Link}
      → Reach f IsSendable reqs l
      → (rest : List (ℕ × ℕ)) × (reqs ≡ l.taken ++ rest)
  taken-fifo r = let (rest, _, v) = Reach-IsFifo r in (rest, v.order)

  -- A read of what the socket holds never panics, in any reachable state.
  pub read-succeeds :
      {reqs : List (ℕ × ℕ)} {l : Link} (chunk tail : Bytes) (fds : List ℕ)
      → Reach f IsSendable reqs l
      → l.bytes ≡ chunk ++ tail
      → l.worker.read_buf_len + length chunk ≤ 2048
      → (s : WorkerMsgBuffer) × (WorkerBuffer.read_unix_stream f l.worker (ok chunk) fds
          ≡ some (s, ok tt))
        × (s.read_buf_len ≤ 12)
  read-succeeds {l = l} chunk tail fds r eb room =
      let (_, left, v) = Reach-IsFifo r in
      let all : pending l.worker ++ (chunk ++ (tail ++ outgoing f l.server))
          ≡ wire (request-IsFraming format) left =
        ap (◌++◌ (pending l.worker)) (
          sym (append_assoc chunk tail (outgoing f l.server))
          ∙ ap (λ b. b ++ outgoing f l.server) (sym eb))
        ∙ v.bytes in
      let (_, _, s, e, _, _, _, _, _, valid) =
        read_requests-Reads format l.worker left chunk (tail ++ outgoing f l.server) fds v.valid
          v.sendable room all in
      (s, e, valid.held)

  -- Nothing is lost: when the server has written all and the worker has read all, every request
  -- that the worker has not taken waits in its two queues, the message beside its stream.
  pub drained_complete :
      {reqs : List (ℕ × ℕ)} {l : Link}
      → Reach f IsSendable reqs l
      → ServerBuffer.has_data_to_send l.server ≡ false
      → l.bytes ≡ []
      → l.fds ≡ []
      → (rest : List (ℕ × ℕ)) × (reqs ≡ l.taken ++ rest)
        × (l.worker.stream_msgs ≡ messages rest)
        × (l.worker.stream_fds ≡ streams rest)
  drained_complete {l = l} r idle eb ef =
      let (rest, left, v) = Reach-IsFifo r in
      let (sent, written) = idle_lem l.server idle in
      let out : outgoing f l.server ≡ [] =
        ap₂ (λ b es. b ++ concat (map (request_frame f) (map (λ e. e.0) es))) written sent in
      let none_left : left ≡ [] =
        IsShort-done (request-IsFraming format) left (pending l.worker)
          (l.bytes ++ outgoing f l.server) v.bytes v.short (ap₂ ◌++◌ eb out) in
      let behind : l.fds ++ queued_fds l.server.to_send ≡ [] =
        ap₂ (λ a es. a ++ queued_fds es) ef sent in
      (
        rest,
        v.order,
        sym (v.msgs ∙ ap (◌++◌ l.worker.stream_msgs) none_left ∙ append-nil l.worker.stream_msgs),
        sym (v.fds ∙ ap (◌++◌ l.worker.stream_fds) behind ∙ append-nil l.worker.stream_fds),
      )
