-- ===== src/Msgs/ServerBuffer/Read.antt =====
-- `ServerMsgBuffer::read_unix_stream`: whatever pieces the socket hands over, the responses come
-- out whole, once each and in order.
use casket.Base.{
  ℕ, ◌+◌, ◌-◌, ◌*◌, ◌≤◌, ◌≡◌, refl, sym, ◌∙◌, ap, inl, inr, Bool-cases, ltb, some, List, [], ◌∷◌,
  ◌++◌, append_assoc, append-nil, arith, Bytes, ok, length, take, All, if◌then◌else◌, length-resize,
  take-resize,
}
use casket.Msgs.Wire.{Response, Format, IsResponseFormat}
use casket.Msgs.Scan.{wire, IsShort-done}
use casket.Msgs.Receive.{receive, receive-Receives}
use casket.Msgs.ServerBuffer.{
  ServerMsgBuffer, keeps, dispatch, grown, response_size, read_unix_stream,
}
use casket.Msgs.ServerBuffer.Framing.{response-IsFraming}

abbrev pub pending : ServerMsgBuffer → Bytes
pending s = take s.read_buf_len s.read_buffer

pub record IsValid (s : ServerMsgBuffer) : Type 0 where
  pub held : s.read_buf_len ≤ length s.read_buffer
  pub roomy : 2048 ≤ length s.read_buffer

pub grown_lem :
    (s : ServerMsgBuffer)
    → IsValid s
    → (s.read_buf_len + 512 ≤ length (grown s))
      × (length s.read_buffer ≤ length (grown s))
      × (take s.read_buf_len (grown s) ≡ pending s)
grown_lem s v =
    let size = length-resize (length s.read_buffer * 2) 0 s.read_buffer in
    elim (Bool-cases (ltb (length s.read_buffer - s.read_buf_len) 512)) [
      | inl tight ↦ rw tight (
        omega (arith, size, v.held),
        omega (arith, size),
        take-resize s.read_buf_len (length s.read_buffer * 2) 0 s.read_buffer v.held
            (omega (arith, v.held)),
      )
      | inr loose ↦ rw loose (ground (arith, v.held), omega arith, refl)
    ]

-- The responses whose streams stay open, and those whose streams are to be closed.
abbrev pub kept : List Response → List (ℕ × ℕ)
kept [] = []
kept (m ∷ ms) = if keeps m then (m.token, m.fd) ∷ kept ms else kept ms

abbrev pub closed : List Response → List (ℕ × ℕ)
closed [] = []
closed (m ∷ ms) = if keeps m then closed ms else (m.token, m.fd) ∷ closed ms

dispatch_lem :
    (s : ServerMsgBuffer) (ms : List Response)
    → dispatch s ms ≡ record s {
      stream_tks = s.stream_tks ++ kept ms;
      stream_close_tks = s.stream_close_tks ++ closed ms;
    }
unfolding dispatch
dispatch_lem s [] = λ i. record s {
  stream_tks = sym (append-nil s.stream_tks) i;
  stream_close_tks = sym (append-nil s.stream_close_tks) i;
}
dispatch_lem s (m ∷ ms) = elim (Bool-cases (keeps m)) [
  | inl e ↦ rw e (
      dispatch_lem (record s { stream_tks = s.stream_tks ++ (m.token, m.fd) ∷ [] }) ms ∙ λ i.
      record s {
        stream_tks = append_assoc s.stream_tks ((m.token, m.fd) ∷ []) (kept ms) i;
        stream_close_tks = s.stream_close_tks ++ closed ms;
      })
  | inr e ↦ rw e (
      dispatch_lem (record s { stream_close_tks = s.stream_close_tks ++ (m.token, m.fd) ∷ [] }) ms
      ∙ λ i. record s {
        stream_tks = s.stream_tks ++ kept ms;
        stream_close_tks = append_assoc s.stream_close_tks ((m.token, m.fd) ∷ []) (closed ms) i;
      })
]

read_unix_stream_got :
    (f : Format Response) (s : ServerMsgBuffer) (bytes buffer : Bytes) (len : ℕ)
    (ms : List Response)
    → receive 4 response_size f.deserialize (grown s) s.read_buf_len bytes ≡ some (ms, buffer, len)
    → read_unix_stream f s (ok bytes)
      ≡ some (dispatch (record s { read_buffer = buffer; read_buf_len = len }) ms, ok tt)
unfolding read_unix_stream
read_unix_stream_got f s bytes buffer len ms e = rw (e, read_unix_stream) refl

-- Of the responses `ms`, what was pending and `bytes` have come in, and `q` is still on its way.
-- The read does not panic. It takes over a front part of `ms`, each response once and in order:
-- those that keep their stream to one queue, the others to the other. What remains pending and on
-- the way are exactly the other responses, and none is held back once all has come in. The buffer
-- stays valid, and what is to be sent is left alone.
pub read_responses-Reads :
    {f : Format Response} {IsSendable : Response → Type 0} (format : IsResponseFormat f IsSendable)
    (s : ServerMsgBuffer) (ms : List Response) (bytes q : Bytes)
    → IsValid s
    → All IsSendable ms
    → s.read_buf_len + length bytes ≤ length (grown s)
    → pending s ++ (bytes ++ q) ≡ wire (response-IsFraming format) ms
    → (got left : List Response) × (s' : ServerMsgBuffer) × (read_unix_stream f s (ok bytes)
        ≡ some (s', ok tt))
      × (ms ≡ got ++ left)
      × (pending s' ++ q ≡ wire (response-IsFraming format) left)
      × (q ≡ [] → left ≡ [])
      × (s'.stream_tks ≡ s.stream_tks ++ kept got)
      × (s'.stream_close_tks ≡ s.stream_close_tks ++ closed got)
      × IsValid s'
      × (s'.to_send ≡ s.to_send)
      × (s'.write_buffer ≡ s.write_buffer)
read_responses-Reads {f} format s ms bytes q v sendable room e =
    let (_, larger, same) = grown_lem s v in
    let (got, left, buffer, len, r, split, rest, short, size, held) =
      receive-Receives (response-IsFraming format) ms (grown s) s.read_buf_len bytes q sendable room
        (ap (λ b. b ++ (bytes ++ q)) same ∙ e) in
    let done = IsShort-done (response-IsFraming format) left (take len buffer) q rest short in
    let read = read_unix_stream_got f s bytes buffer len got r in
    let u : ServerMsgBuffer = record s { read_buffer = buffer; read_buf_len = len } in
    (
      got,
      left,
      record u {
        stream_tks = s.stream_tks ++ kept got;
        stream_close_tks = s.stream_close_tks ++ closed got;
      },
      read ∙ ap (λ w. some (w, ok tt)) (dispatch_lem u got),
      split,
      rest,
      done,
      refl,
      refl,
      record { held = omega arith; roomy = omega (arith, v.roomy) },
      refl,
      refl,
    )
