-- ===== src/Server/Tokens.antt =====
-- The tokens of the clients' streams.
use casket.Base.{
  ℕ, ◌+◌, ◌*◌, ◌<◌, ◌≡◌, refl, ◌∙◌, ap, false, some, arith, ok, length, add_usize, add_usize_lem,
  usize_mod,
}
use casket.Base.Map.{lookup, insert, remove, lookup-insert, length-insert_known}
use casket.Server.{Server, Turn, next, keep_stream, keep_alive_count_inc, new_stream_count_inc}

-- The token of request `request` on the stream that came as number `stream`, counted from 1.
abbrev pub token_of : ℕ → ℕ → ℕ
token_of stream request = stream * new_stream_count_inc + request * keep_alive_count_inc

-- Two requests with one token are the same request on the same stream, as long as no stream
-- serves more than 131072 requests.
pub token_of_inj :
    (a b m n : ℕ) → m < 131072 → n < 131072 → token_of a m ≡ token_of b n → (a ≡ b) × (m ≡ n)
token_of_inj a b m n h h' e = omega arith

-- The keep-alive step goes from the token of one request to that of the next.
keep_alive_token :
    (stream request : ℕ)
    → token_of stream request + keep_alive_count_inc < usize_mod
    → add_usize (token_of stream request) keep_alive_count_inc ≡ token_of stream (request + 1)
keep_alive_token stream request h =
    add_usize_lem (token_of stream request) keep_alive_count_inc h ∙ (omega arith)

keep_stream_kept :
    (t : Turn) (s : Server) (tk new_tk stream : ℕ)
    → add_usize tk keep_alive_count_inc ≡ new_tk
    → s.run_shutdown ≡ false
    → lookup tk s.processing_streams ≡ some stream
    → t.register new_tk ≡ ok tt
    → (s' : Server) × (keep_stream t tk s ≡ next s')
      × (s'.reading_streams ≡ insert new_tk stream s.reading_streams)
      × (s'.shut ≡ s.shut)
unfolding keep_stream
keep_stream_kept t s tk new_tk stream new running held registered =
    let s' : Server = record s {
      processing_streams = remove tk s.processing_streams;
      reading_streams = insert (add_usize tk keep_alive_count_inc) stream s.reading_streams;
    } in
    (s', ground arith, ap (λ k. insert k stream s.reading_streams) new, refl)

-- Nothing stops a stream at its 131072nd request: kept alive once more, it takes the token of the
-- next stream. If that stream is being read from, the map of them then has the old stream in its
-- place, no more entries than before, and `shutdown` was not called on it.
pub keep_stream-collides :
    (t : Turn) (s : Server) (stream old other : ℕ)
    → token_of (stream + 1) 0 < usize_mod
    → s.run_shutdown ≡ false
    → lookup (token_of stream 131071) s.processing_streams ≡ some old
    → lookup (token_of (stream + 1) 0) s.reading_streams ≡ some other
    → t.register (token_of (stream + 1) 0) ≡ ok tt
    → (s' : Server) × (keep_stream t (token_of stream 131071) s ≡ next s')
      × (lookup (token_of (stream + 1) 0) s'.reading_streams ≡ some old)
      × (length s'.reading_streams ≡ length s.reading_streams)
      × (s'.shut ≡ s.shut)
keep_stream-collides t s stream old other big running held idle registered =
    let tk = token_of (stream + 1) 0 in
    let new : add_usize (token_of stream 131071) keep_alive_count_inc ≡ tk =
      keep_alive_token stream 131071 (omega arith) ∙ (omega arith) in
    let (s', kept, reading, shut) =
      keep_stream_kept t s (token_of stream 131071) tk old new running held registered in
    (
      s',
      kept,
      rw reading (rw (lookup-insert tk tk old s.reading_streams) (ground arith)),
      rw reading (length-insert_known tk old other s.reading_streams idle),
      shut,
    )
