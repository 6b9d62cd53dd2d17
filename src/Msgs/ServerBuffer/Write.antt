-- ===== src/Msgs/ServerBuffer/Write.antt =====
-- `ServerMsgBuffer::write_unix_stream`: nothing is lost or reordered, however much of it the
-- socket takes.
use casket.Base.{
  ℕ, zero, suc, ◌≤◌, ◌≡◌, refl, sym, ◌∙◌, ap, List, [], ◌∷◌, ◌++◌, append_assoc, append-nil, map,
  map-append, Bytes, Result, ok, err, length, take, concat, concat-append, consume, consume-eq-drop,
  take-append-drop,
}
use casket.Msgs.Wire.{Request, Format, request_frame}
use casket.Msgs.ServerBuffer.{ServerMsgBuffer, enqueue_loop, write_unix_stream, req_tcp_stream_fd}

abbrev pub queued : List (Request × ℕ) → List Request
queued = map (λ e. e.0)

abbrev pub queued_fds : List (Request × ℕ) → List ℕ
queued_fds = map (λ e. e.1)

abbrev pub frames : Format Request → List (Request × ℕ) → Bytes
frames f es = concat (map (request_frame f) (queued es))

-- All that the server has still to write.
abbrev pub outgoing : Format Request → ServerMsgBuffer → Bytes
outgoing f s = s.write_buffer ++ frames f s.to_send

-- The socket takes no more bytes than it is given.
abbrev pub IsTaken : Result Bytes ℕ → Bytes → Type 0
IsTaken (ok n) buf = n ≤ length buf
IsTaken (err e) buf = Unit

enqueue_loop_lem :
    (f : Format Request) (room : ℕ) (es : List (Request × ℕ)) (buf : Bytes)
    → let (left, buf', fds) = enqueue_loop f room es buf in
      (buf' ++ frames f left ≡ buf ++ frames f es) × (fds ++ queued_fds left ≡ queued_fds es)
unfolding enqueue_loop
enqueue_loop_lem f room [] buf = (refl, refl)
enqueue_loop_lem f zero (e ∷ es) buf = (refl, refl)
enqueue_loop_lem f (suc room) ((msg, fd) ∷ es) buf =
    let (bytes, fds) = enqueue_loop_lem f room es (buf ++ request_frame f msg) in
    (bytes ∙ append_assoc buf (request_frame f msg) (frames f es), ap (◌∷◌ fd) fds)

-- Whatever the socket takes, on success and on error: the bytes handed over, followed by what is
-- still to write, are what was to be written; and so for the descriptors. What has been read is
-- left alone.
pub write_requests-conserves :
    (f : Format Request) (s : ServerMsgBuffer) (room : ℕ) (answer : Result Bytes ℕ)
    → IsTaken answer (enqueue_loop f room s.to_send s.write_buffer).1
    → let w = write_unix_stream f s room answer in
      (w.bytes ++ outgoing f w.state ≡ outgoing f s)
      × (w.fds ++ queued_fds w.state.to_send ≡ queued_fds s.to_send)
      × (w.state.stream_tks ≡ s.stream_tks)
      × (w.state.stream_close_tks ≡ s.stream_close_tks)
unfolding write_unix_stream
write_requests-conserves f s room (err e) h =
    let (bytes, fds) = enqueue_loop_lem f room s.to_send s.write_buffer in (bytes, fds, refl, refl)
write_requests-conserves f s room (ok n) h =
    let (left, buf, _) = enqueue_loop f room s.to_send s.write_buffer in
    let (bytes, fds) = enqueue_loop_lem f room s.to_send s.write_buffer in
    let whole : take n buf ++ consume n buf ≡ buf =
      ap (◌++◌ (take n buf)) (consume-eq-drop n buf h) ∙ take-append-drop n buf in
    (
      sym (append_assoc (take n buf) (consume n buf) (frames f left))
          ∙ ap (λ b. b ++ frames f left) whole
          ∙ bytes,
      fds,
      refl,
      refl,
    )

-- A new request is written behind the others.
pub outgoing-req_tcp_stream_fd :
    (f : Format Request) (s : ServerMsgBuffer) (tk fd : ℕ)
    → outgoing f (req_tcp_stream_fd s tk fd)
      ≡ outgoing f s ++ request_frame f (record { token = tk; fd = fd })
unfolding req_tcp_stream_fd
outgoing-req_tcp_stream_fd f s tk fd =
    let frame = request_frame f in
    let m : Request = record { token = tk; fd = fd } in
    let parts : frames f (s.to_send ++ (m, fd) ∷ []) ≡ frames f s.to_send ++ frame m =
      ap (λ ms. concat (map frame ms)) (map-append (λ e. e.0) s.to_send ((m, fd) ∷ []))
      ∙ ap concat (map-append frame (queued s.to_send) (m ∷ []))
      ∙ concat-append (map frame (queued s.to_send)) (frame m ∷ [])
      ∙ ap (◌++◌ (frames f s.to_send)) (append-nil (frame m)) in
    ap (◌++◌ s.write_buffer) parts
    ∙ sym (append_assoc s.write_buffer (frames f s.to_send) (frame m))
