-- ===== src/Server/Streams/Sending.antt =====
-- What the sockets do to the requests that wait to be sent.
use casket.Base.{
  ℕ, zero, suc, ◌≤◌, ◌≡◌, refl, sym, ap, ◌∙◌, inl, inr, Option-cases, Bool-cases, none, some, List,
  [], ◌∷◌, ◌++◌, arith, map, Bytes, Result, ok, err,
}
use casket.Msgs.ServerBuffer
use casket.Msgs.ServerBuffer.{
  ServerMsgBuffer, dispatch, keeps, grown, response_size, read_unix_stream, enqueue_loop,
}
use casket.Msgs.Receive.{receive}
use casket.Msgs.Wire.{Request, Response, Format, request_frame}
use casket.Server.Streams.Waiting.{count, to_send_tokens}
use casket.Server.Streams.{UnixStream, read_stream, write_stream}
use casket.Server.{Event, read_if}

dispatch_keeps : (ms : List Response) (s : ServerMsgBuffer) → (dispatch s ms).to_send ≡ s.to_send
unfolding dispatch
dispatch_keeps [] s = refl
dispatch_keeps (m ∷ ms) s = elim (Bool-cases (keeps m)) [
  | inl e ↦ rw (e, dispatch) (dispatch_keeps ms _)
  | inr e ↦ rw (e, dispatch) (dispatch_keeps ms _)
]

read_unix_stream_keeps :
    (f : Format Response) (s b : ServerMsgBuffer) (answer : Result Bytes Bytes)
    (r : Result Bytes (Unit {0}))
    → read_unix_stream f s answer ≡ some (b, r)
    → b.to_send ≡ s.to_send
unfolding read_unix_stream
read_unix_stream_keeps f s b (err e) r h =
    ap (λ o. elim o [ none ↦ [] | some got ↦ got.0.to_send ]) (sym h)
read_unix_stream_keeps f s b (ok bytes) r h =
    elim (Option-cases (receive 4 response_size f.deserialize (grown s) s.read_buf_len bytes)) [
      | inl e ↦ let h' = rw (e, read_unix_stream) at h in ground arith
      | inr (got, e) ↦
          let h' = rw (e, read_unix_stream) at h in
          ap (λ o. elim o [ none ↦ [] | some got ↦ got.0.to_send ]) (sym h')
          ∙ dispatch_keeps got.0 (record s { read_buffer = got.1; read_buf_len = got.2 })
    ]

-- A read adds no request, and takes none away.
pub read_if_keeps :
    (f : Format Response) (ev : Event) (u u' : UnixStream)
    → read_if f ev u ≡ some u'
    → to_send_tokens u' ≡ to_send_tokens u
unfolding read_stream
read_if_keeps f ev u u' h = elim (Bool-cases ev.readable) [
  | inl able ↦ elim (Option-cases (read_unix_stream f u.msg_buffer ev.read)) [
    | inl e ↦ let h' = rw (able, e) at h in ground arith
    | inr (got, e) ↦
        let h' = rw (able, e) at h in
        ap (λ o. elim o [ none ↦ [] | some v ↦ to_send_tokens v ]) (sym h')
        ∙ ap (map (λ e. e.0.token)) (read_unix_stream_keeps f u.msg_buffer got.0 ev.read got.1 e)
  ]
  | inr unable ↦
      let h' = rw unable at h in ap (λ o. elim o [ none ↦ [] | some v ↦ to_send_tokens v ]) (sym h')
]

enqueue_loop-count :
    (f : Format Request) (k room : ℕ) (es : List (Request × ℕ)) (buf : Bytes)
    → count k (map (λ e. e.0.token) (enqueue_loop f room es buf).0)
      ≤ count k (map (λ e. e.0.token) es)
unfolding enqueue_loop
enqueue_loop-count f k room [] buf = omega arith
enqueue_loop-count f k zero (e ∷ es) buf = omega arith
enqueue_loop-count f k (suc room) (e ∷ es) buf =
    omega (arith, enqueue_loop-count f k room es (buf ++ request_frame f e.0))

-- A write adds no request.
pub write_stream-count :
    (f : Format Request) (k : ℕ) (u : UnixStream) (room : ℕ) (answer : Result Bytes ℕ)
    → count k (to_send_tokens (write_stream f u room answer).0) ≤ count k (to_send_tokens u)
unfolding write_stream ServerBuffer.write_unix_stream
write_stream-count f k u room (ok n) =
    enqueue_loop-count f k room u.msg_buffer.to_send u.msg_buffer.write_buffer
write_stream-count f k u room (err e) =
    enqueue_loop-count f k room u.msg_buffer.to_send u.msg_buffer.write_buffer
