-- ===== src/Server/Streams/Tests.antt =====
-- The server's sockets to two workers, at concrete inputs.
use casket.Base.{
  ℕ, ◌≤◌, ◌≡◌, ◌⊎◌, refl, some, [], ◌∷◌, arith, Bytes, ok, err, length, All, set, get_elem?,
}
use casket.Msgs.ServerBuffer
use casket.Server.Streams.{
  poll_read, poll_write, UnixStream, neither, new_stream, from_rw, msg_send_tcp_stream,
  send_to_stream, reregister_stream, next_stream_tks, next_stream_close_tks, least_loaded,
}
use casket.Server.Streams.Drain.{
  IsAccounted, drained, drained_close, next_stream_tks-collects, next_stream_close_tks-collects,
}
use casket.Server.Streams.Interest.{reregister-tracks, follow}
use casket.Server.Streams.Load.{msg_send_tcp_stream-least, IsBusier, asked}

-- The worker 1 has three requests to answer, and has answered two, of which one closes.
abbrev busy : UnixStream
unfolding new_stream ServerBuffer.new
busy = record (new_stream 1) {
  num_reqs = 3;
  msg_buffer = record ServerBuffer.new {
    stream_tks = (16777216, 5) ∷ [];
    stream_close_tks = (33554432, 6) ∷ [];
  };
}

abbrev idle : UnixStream
unfolding new_stream
idle = new_stream 2

-- The request goes to the worker 2.
sends_to_idle :
    msg_send_tcp_stream (busy ∷ idle ∷ []) 50331648 7
    ≡ some (busy ∷ send_to_stream idle 50331648 7 ∷ [])
unfolding msg_send_tcp_stream busy idle least_loaded
sends_to_idle = refl

msg_send_tcp_stream-least_example :
    (i : ℕ) × (s : UnixStream) × (get_elem? (busy ∷ idle ∷ []) i ≡ some s)
    × (msg_send_tcp_stream (busy ∷ idle ∷ []) 50331648 7
        ≡ some (set (busy ∷ idle ∷ []) i (asked s 50331648 7)))
    × All (IsBusier s.num_reqs) (busy ∷ idle ∷ [])
unfolding busy idle
msg_send_tcp_stream-least_example =
    msg_send_tcp_stream-least busy (idle ∷ []) 50331648 7 (omega arith, (omega arith, tt))

reregister-tracks_example :
    let (s', calls, r) = reregister_stream (λ _. ok tt) busy in
    (length calls ≤ 1)
    × (follow neither calls ≡ some (from_rw (poll_read busy) (poll_write busy)))
    × ((r ≡ ok tt) × (s' ≡ record busy { interest = from_rw (poll_read busy) (poll_write busy) })
        ⊎ ((e : Bytes) × (r ≡ err e) × (s' ≡ busy)))
unfolding busy
reregister-tracks_example = reregister-tracks (λ _. ok tt) busy

busy-IsAccounted : IsAccounted busy
unfolding busy
busy-IsAccounted = record { answered = omega arith; bounded = omega arith }

next_stream_tks-collects_example :
    (next_stream_tks (busy ∷ []) ≡ (drained busy ∷ [], 16777216 ∷ []))
    × All IsAccounted (drained busy ∷ [])
unfolding busy
next_stream_tks-collects_example = next_stream_tks-collects (busy ∷ []) (busy-IsAccounted, tt)

next_stream_close_tks-collects_example :
    (next_stream_close_tks (busy ∷ []) ≡ (drained_close busy ∷ [], 33554432 ∷ []))
    × All IsAccounted (drained_close busy ∷ [])
unfolding busy
next_stream_close_tks-collects_example =
    next_stream_close_tks-collects (busy ∷ []) (busy-IsAccounted, tt)
