-- ===== src/Worker/Loop/Brings.antt =====
-- Which stream a result brings, and which of the buffer's fields stay.
use casket.Base.{
  ℕ, ◌+◌, ◌≡◌, refl, ◌∙◌, inl, inr, Bool-cases, some, List, [], ◌∷◌, ◌++◌, map, Bytes, Result, ok,
  err, arith,
}
use casket.Msgs.WorkerBuffer.{WorkerMsgBuffer, read_unix_stream, write_unix_stream}
use casket.Msgs.Wire.{Request, Format}
use casket.Http.{HttpResponse}
use casket.Worker.Actions.{ActionResult, CasketResponse}
use casket.Worker.Loop.Moved.{moved, responds, sum}
use casket.Worker.Loop.Flow.{one}
use casket.Worker.PythonThreads.{
  PythonThreads, Inbox, code_start, take_response, take_each, take_responses,
}
use casket.Worker.Reader.{Library, Reader, Random}
use casket.Worker.Writer.{Writer}
use casket.Worker.{event_server_stream_read, event_server_stream_write, event_casket_response_write}

module _ {Method Url : Type 0} where
  pub sum-append :
      (g : ℕ → ActionResult Method Url → ℕ) (k : ℕ) (xs bs : List (ActionResult Method Url))
      → sum g k (xs ++ bs) ≡ sum g k xs + sum g k bs
  sum-append g k [] bs = omega arith
  sum-append g k (a ∷ xs) bs = omega (arith, sum-append g k xs bs)

  pub brings_read :
      (lib : Library Method Url) (random : Random) (tk stream k : ℕ) (reader : Reader Method Url)
      (answer : Result Bytes Bytes) (a : ActionResult Method Url)
      → event_server_stream_read lib random tk stream reader answer ≡ some a
      → (moved k a ≡ one tk k) × (responds k a ≡ 0)
  unfolding event_server_stream_read
  brings_read lib random tk stream k reader answer a e = ground arith

  pub brings_write :
      (tk stream k : ℕ) (writer : Writer Method Url) (answer : Result Bytes ℕ)
      → let a = event_server_stream_write tk stream writer answer in
        (moved k a ≡ one tk k) × (responds k a ≡ 0)
  unfolding event_server_stream_write
  brings_write tk stream k writer answer = ground arith

pub brings_casket :
    (Method Url : Type 0) (tk stream k : ℕ) (resp : CasketResponse) (answer : Result Bytes ℕ)
    → let a = event_casket_response_write {Method = Method} {Url = Url} tk stream resp answer in
      (moved k a ≡ one tk k) × (responds k a ≡ 0)
unfolding event_casket_response_write
brings_casket Method Url tk stream k resp (err e) = (refl, refl)
brings_casket Method Url tk stream k resp (ok n) = ground arith

starts-moved :
    (Method Url : Type 0) (k : ℕ) (ms : List (ℕ × ℕ))
    → sum moved k (map (code_start {Method = Method} {Url = Url}) ms) ≡ 0
starts-moved Method Url k [] = refl
starts-moved Method Url k (m ∷ ms) = omega (arith, starts-moved Method Url k ms)

module _ {Method Url : Type 0} where
  take_response-moved :
      (k : ℕ) (m : ℕ × HttpResponse Method Url) (p : PythonThreads Method Url)
      → sum moved k (take_response m p).1 ≡ 0
  unfolding take_response
  take_response-moved k m p = ground arith

  take_each-moved :
      (k : ℕ) (ms : List (ℕ × HttpResponse Method Url)) (p : PythonThreads Method Url)
      → sum moved k (take_each ms p).1 ≡ 0
  unfolding take_each
  take_each-moved k [] p = refl
  take_each-moved k (m ∷ ms) p =
      let (p', results) = take_response m p in
      sum-append moved k results (take_each ms p').1
      ∙ (omega (arith, take_response-moved k m p, take_each-moved k ms p'))

  pub take_responses-moved :
      (k : ℕ) (starts : Inbox (ℕ × ℕ)) (responses : Inbox (ℕ × HttpResponse Method Url))
      (p : PythonThreads Method Url)
      → sum moved k (take_responses starts responses p).1 ≡ 0
  unfolding take_responses
  take_responses-moved k starts responses p = elim (Bool-cases starts.disconnected) [
    | inl e ↦ rw e (starts-moved Method Url k starts.messages)
    | inr e ↦ rw e (
        sum-append moved k (map (code_start {Method = Method} {Url = Url}) starts.messages)
          (take_each responses.messages p).1
        ∙ (omega (
          arith,
          starts-moved Method Url k starts.messages,
          take_each-moved k responses.messages p,
        )))
  ]

pub read_unix_stream-fds :
    (f : Format Request) (b : WorkerMsgBuffer) (answer : Result Bytes Bytes) (fds : List ℕ)
    (got : WorkerMsgBuffer × Result Bytes (Unit {0}))
    → read_unix_stream f b answer fds ≡ some got
    → got.0.server_fds ≡ b.server_fds
unfolding read_unix_stream
read_unix_stream-fds f b answer fds got e = ground arith

pub write_unix_stream-fds :
    (b : WorkerMsgBuffer) (answer : Result Bytes ℕ)
    → (write_unix_stream b answer).0.server_fds ≡ b.server_fds
unfolding write_unix_stream
write_unix_stream-fds b (ok n) = refl
write_unix_stream-fds b (err e) = refl
