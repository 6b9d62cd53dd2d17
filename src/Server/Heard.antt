-- ===== src/Server/Heard.antt =====
-- What a worker's socket hands over, in bytes, is what its events answer.
use casket.Base.{
  ℕ, ◌+◌, ◌≤◌, ◌≡◌, refl, ap, subst, some, true, List, ◌++◌, All, arith, length, Bytes, ok,
  map-append,
}
use casket.Msgs.Scan.{wire}
use casket.Msgs.ServerBuffer.Framing.{response-IsFraming}
use casket.Msgs.ServerBuffer.Read.{IsValid, pending, read_responses-Reads}
use casket.Msgs.ServerBuffer.{grown}
use casket.Msgs.Wire.{Response, Format, IsResponseFormat}
use casket.Server.Answered.{Answers, AreAsked, Takes, response_tokens}
use casket.Server.Streams.Waiting.{count, count-append}
use casket.Server.Streams.{UnixStream, get_mut, read_stream}
use casket.Server.{Server, Event, read_if}

-- Of the responses `ms` of a worker, what its socket's buffer holds and `bytes` have come in.
pub record Hears {f : Format Response} {IsSendable : Response → Type 0}
    (format : IsResponseFormat f IsSendable) (u : UnixStream) (ms : List Response) (bytes q : Bytes)
    : Type 0 where
  pub valid : IsValid u.msg_buffer
  pub sendable : All IsSendable ms
  pub room : u.msg_buffer.read_buf_len + length bytes ≤ length (grown u.msg_buffer)
  pub arrives : pending u.msg_buffer ++ (bytes ++ q) ≡ wire (response-IsFraming format) ms

AreAsked-front :
    (asked : ℕ → ℕ) (ms got left : List Response)
    → ms ≡ got ++ left
    → AreAsked asked ms
    → AreAsked asked got
AreAsked-front asked ms got left split h = λ k. omega (
  arith,
  h k,
  ap (λ l. count k (response_tokens l)) split,
  ap (count k) (map-append (λ m. m.token) got left),
  count-append k (response_tokens got) (response_tokens left),
)

module _ {f : Format Response} {IsSendable : Response → Type 0}
    (format : IsResponseFormat f IsSendable) where
  read_stream-Takes :
      (u : UnixStream) (ms : List Response) (bytes q : Bytes)
      → Hears format u ms bytes q
      → (got left : List Response) × (u' : UnixStream) × (read_stream f u (ok bytes)
          ≡ some (u', ok tt))
        × (ms ≡ got ++ left)
        × Takes u got u'
  unfolding read_stream
  read_stream-Takes u ms bytes q h =
      let (got, left, b, read, split, _, _, kept, closed, _, _, _) =
        read_responses-Reads format u.msg_buffer ms bytes q h.valid h.sendable h.room h.arrives in
      (got, left, record u { msg_buffer = b }, rw (read, read_stream) refl, split, (kept, closed))

  read_if-some :
      (ev : Event) (u u' : UnixStream) (bytes : Bytes)
      → ev.readable ≡ true
      → ev.read ≡ ok bytes
      → read_stream f u (ok bytes) ≡ some (u', ok tt)
      → read_if f ev u ≡ some u'
  read_if-some ev u u' bytes readable read e = rw (readable, read, e) refl

  -- A worker's event answers what the responses on its socket answer, whatever pieces they come in.
  pub Hears-Answers :
      (asked : ℕ → ℕ) (s : Server) (ev : Event) (u : UnixStream) (ms : List Response)
      (bytes q : Bytes)
      → get_mut s.unix_streams ev.token ≡ some u
      → ev.readable ≡ true
      → ev.read ≡ ok bytes
      → Hears format u ms bytes q
      → AreAsked asked ms
      → Answers f asked ev s
  Hears-Answers asked s ev u ms bytes q found readable read h are_asked = λ u' found'.
      let (got, left, u'', e, split, takes) = read_stream-Takes u ms bytes q h in
      let same : u ≡ u' = cc in
      (
        got,
        u'',
        subst (λ v. read_if f ev v ≡ some u'') same (read_if-some ev u u'' bytes readable read e),
        subst (λ v. Takes v got u'') same takes,
        AreAsked-front asked ms got left split are_asked,
      )
