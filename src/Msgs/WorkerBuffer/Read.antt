-- ===== src/Msgs/WorkerBuffer/Read.antt =====
-- `WorkerMsgBuffer::read_unix_stream`: the requests come out whole, once each and in order, and
-- the buffer, which is never enlarged, never fills up.
use casket.Base.{
  ℕ, ◌+◌, ◌≤◌, ◌≡◌, refl, ◌∙◌, some, List, [], ◌∷◌, ◌++◌, arith, Bytes, ok, length, take, All,
  length-take, ap, subst,
}
use casket.Msgs.Wire.{Request, Format, IsRequestFormat}
use casket.Msgs.Scan.{wire, IsShort}
use casket.Msgs.Receive.{receive, receive-Receives}
use casket.Msgs.WorkerBuffer.{WorkerMsgBuffer, request_size, read_unix_stream}
use casket.Msgs.WorkerBuffer.Framing.{request-IsFraming, length-request_frame}

abbrev pub pending : WorkerMsgBuffer → Bytes
pending s = take s.read_buf_len s.read_buffer

-- Less than one frame is held between two reads.
pub record IsValid (s : WorkerMsgBuffer) : Type 0 where
  pub held : s.read_buf_len ≤ 12
  pub fixed : length s.read_buffer ≡ 2048

read_unix_stream_got :
    (f : Format Request) (s : WorkerMsgBuffer) (bytes buffer : Bytes) (fds : List ℕ) (len : ℕ)
    (ms : List Request)
    → receive 1 request_size f.deserialize s.read_buffer s.read_buf_len bytes
      ≡ some (ms, buffer, len)
    → read_unix_stream f s (ok bytes) fds
      ≡ some (
        record s {
          read_buffer = buffer;
          read_buf_len = len;
          stream_msgs = s.stream_msgs ++ ms;
          stream_fds = s.stream_fds ++ fds;
        },
        ok tt,
      )
unfolding read_unix_stream
read_unix_stream_got f s bytes buffer fds len ms e = rw (e, read_unix_stream) refl

module _ {f : Format Request} {IsSendable : Request → Type 0}
    (format : IsRequestFormat f IsSendable) where
  held_short :
      (left : List Request) (r : Bytes)
      → All IsSendable left
      → IsShort (request-IsFraming format) left r
      → length r ≤ 12
  held_short [] r s h = omega (arith, ap length h)
  held_short (m ∷ ms) r s h = omega (arith, length-request_frame format m s.0)

  pub All-right : (xs ys : List Request) → All IsSendable (xs ++ ys) → All IsSendable ys
  All-right [] ys h = h
  All-right (x ∷ xs) ys h = All-right xs ys h.1

  -- Of the requests `ms`, what was pending and `bytes` have come in, and `q` is still on its way.
  -- The read does not panic. It takes over a front part of `ms`, each request once and in order,
  -- and the descriptors that have come; what remains pending and on the way are the other
  -- requests, and none is held back once all has come in. At most twelve bytes stay in the
  -- buffer of 2048, so that the socket always finds room.
  pub read_requests-Reads :
      (s : WorkerMsgBuffer) (ms : List Request) (bytes q : Bytes) (fds : List ℕ)
      → IsValid s
      → All IsSendable ms
      → s.read_buf_len + length bytes ≤ 2048
      → pending s ++ (bytes ++ q) ≡ wire (request-IsFraming format) ms
      → (got left : List Request) × (s' : WorkerMsgBuffer) × (read_unix_stream f s (ok bytes) fds
          ≡ some (s', ok tt))
        × (ms ≡ got ++ left)
        × (pending s' ++ q ≡ wire (request-IsFraming format) left)
        × IsShort (request-IsFraming format) left (pending s')
        × (s'.stream_msgs ≡ s.stream_msgs ++ got)
        × (s'.stream_fds ≡ s.stream_fds ++ fds)
        × IsValid s'
  read_requests-Reads s ms bytes q fds v sendable room e =
      let (got, left, buffer, len, r, split, rest, short, size, held) =
        receive-Receives (request-IsFraming format) ms s.read_buffer s.read_buf_len bytes q sendable
          (omega (arith, v.fixed)) e in
      let others = All-right got left (subst (All IsSendable) split sendable) in
      (
        got,
        left,
        record s {
          read_buffer = buffer;
          read_buf_len = len;
          stream_msgs = s.stream_msgs ++ got;
          stream_fds = s.stream_fds ++ fds;
        },
        read_unix_stream_got f s bytes buffer fds len got r,
        split,
        rest,
        short,
        refl,
        refl,
        record {
          held =
              omega (arith, held_short left (take len buffer) others short, length-take len buffer);
          fixed = size ∙ v.fixed;
        },
      )
