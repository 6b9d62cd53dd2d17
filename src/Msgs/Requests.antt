-- ===== src/Msgs/Requests.antt =====
-- The way of the requests, from `req_tcp_stream_fd` in the server to `next_stream_fd` in a worker,
-- as steps of the two ends and the socket between them in any order. A descriptor stands for the
-- stream that it names: the kernel renumbers it on the way.
pub mod Queue
pub mod Fifo
use casket.Base.{
  ℕ, ◌+◌, ◌≤◌, ◌≡◌, List, [], ◌∷◌, ◌++◌, Bytes, Result, ok, err, some, Option, length,
}
use casket.Msgs.Wire.{Request, Format}
use casket.Msgs.ServerBuffer.{ServerMsgBuffer}
use casket.Msgs.ServerBuffer
use casket.Msgs.ServerBuffer.Write.{IsTaken}
use casket.Msgs.WorkerBuffer.{WorkerMsgBuffer}
use casket.Msgs.WorkerBuffer

-- The two ends, what is on the socket, and what the worker has taken.
pub record Link : Type 0 where
  pub server : ServerMsgBuffer
  pub bytes : Bytes
  pub fds : List ℕ
  pub worker : WorkerMsgBuffer
  pub taken : List (ℕ × ℕ)

module _ (f : Format Request) (IsSendable : Request → Type 0) where
  -- `Steps reqs l reqs' l'`: from the requests `reqs` made so far and the link `l`.
  pub data Step (reqs : List (ℕ × ℕ)) (l : Link) (reqs' : List (ℕ × ℕ)) (l' : Link) : Type 0 where
    request :
        (tk fd : ℕ)
        → IsSendable (record { token = tk; fd = fd })
        → reqs' ≡ reqs ++ (tk, fd) ∷ []
        → l' ≡ record l { server = ServerBuffer.req_tcp_stream_fd l.server tk fd }
        → Step reqs l reqs' l'
    write :
        (room : ℕ) (answer : Result Bytes ℕ)
        → IsTaken answer (ServerBuffer.enqueue_loop f room l.server.to_send l.server.write_buffer).1
        → reqs' ≡ reqs
        → (let w = ServerBuffer.write_unix_stream f l.server room answer in
            l' ≡ record l { server = w.state; bytes = l.bytes ++ w.bytes; fds = l.fds ++ w.fds })
        → Step reqs l reqs' l'
    read :
        (chunk rest : Bytes) (got left : List ℕ) (s : WorkerMsgBuffer)
        → l.bytes ≡ chunk ++ rest
        → l.fds ≡ got ++ left
        → l.worker.read_buf_len + length chunk ≤ 2048
        → WorkerBuffer.read_unix_stream f l.worker (ok chunk) got ≡ some (s, ok tt)
        → reqs' ≡ reqs
        → l' ≡ record l { bytes = rest; fds = left; worker = s }
        → Step reqs l reqs' l'
    take :
        (s : WorkerMsgBuffer) (tk fd : ℕ)
        → WorkerBuffer.next_stream_fd l.worker ≡ (s, some (tk, fd))
        → reqs' ≡ reqs
        → l' ≡ record l { worker = s; taken = l.taken ++ (tk, fd) ∷ [] }
        → Step reqs l reqs' l'

  pub data Reach : List (ℕ × ℕ) → Link → Type 0 where
    start :
        {reqs : List (ℕ × ℕ)} {l : Link}
        → reqs ≡ []
        → l ≡ record {
          server = ServerBuffer.new;
          bytes = [];
          fds = [];
          worker = WorkerBuffer.new;
          taken = [];
        }
        → Reach reqs l
    next :
        {reqs reqs' : List (ℕ × ℕ)} {l l' : Link}
        → Reach reqs l
        → Step reqs l reqs' l'
        → Reach reqs' l'
