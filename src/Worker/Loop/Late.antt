-- ===== src/Worker/Loop/Late.antt =====
-- A request that the Python code takes too long over.
use casket.Base.{
  OnSome, ℕ, ◌≡◌, refl, true, inl, inr, Option, Option-cases, Bytes, Result, err, codes, none, some,
  List, [], ◌∷◌, ◌++◌, ok, arith,
}
use casket.Base.Map.{lookup, remove, IsMap, lookup-remove_self}
use casket.Http.{HttpResponse}
use casket.Worker.Actions.{
  CasketResponse, server_new_response, server_casket_response_new, http_504_response,
  new_504_gateway_timeout,
}
use casket.Config.{Config}
use casket.Msgs.Wire.{Response, Format}
use casket.Msgs.WorkerBuffer.{resp_stream_reg_error}
use casket.Worker.{Worker, handle_action}
use casket.Worker.Events.{python_code}
use casket.Worker.Loop.{Turn, Round, next, set_worker, handle_timeout}
use casket.Worker.PythonThreads.{
  PythonThreads, has_token, insert_token, timeout_request, take_response,
}

has_token-insert : (tk : ℕ) (ts : List ℕ) → has_token tk (insert_token tk ts) ≡ true
has_token-insert tk ts = ground arith

-- The whole of a response with the code 504 is to be written.
abbrev pub Is504 : CasketResponse → Type 0
Is504 r =
    (r.code ≡ 504)
    × (r.response
        ≡ codes "HTTP/1.1 504 Gateway Timeout\r\nServer: Casket\r\nConnection: Close\r\n\r\n")
    × (r.bytes_sent ≡ 0)

module _ {Method Url : Type 0} where
  late_lem :
      (tk : ℕ) (resp : HttpResponse Method Url) (p : PythonThreads Method Url)
      → (take_response (tk, resp) (timeout_request tk p)).1 ≡ []
  unfolding take_response timeout_request
  late_lem tk resp p = ground (arith, has_token-insert tk p.timed_out_reqs)

  forwarded-Forgets :
      (f : Format Response) (cfg : Config) (now tk stream : ℕ)
      (registered : Result Bytes (Unit {0})) (w : Worker Method Url)
      (resp : HttpResponse Method Url)
      → IsMap w.server_pending_streams
      → lookup tk w.server_pending_streams ≡ some stream
      → OnSome
          (λ w'. lookup tk w'.server_pending_streams ≡ none)
          (handle_action f cfg now registered (server_new_response tk resp) w)
  unfolding handle_action
  forwarded-Forgets f cfg now tk stream (ok _) w resp m h =
      rw (h, handle_action) (lookup-remove_self tk w.server_pending_streams m)
  forwarded-Forgets f cfg now tk stream (err x) w resp m h =
      elim (Option-cases (resp_stream_reg_error f w.msg_buf tk x)) [
        | inl e ↦ rw (h, handle_action) (rw e tt)
        | inr (b, e) ↦
            rw (h, handle_action) (rw e (lookup-remove_self tk w.server_pending_streams m))
      ]

  too_late :
      (t : Turn Method Url) (tk : ℕ) (r : Round Method Url) (o : Option (Worker Method Url))
      → OnSome (λ w. lookup tk w.server_pending_streams ≡ none) o
      → OnSome (λ w. handle_timeout t tk python_code (set_worker w r) ≡ next (set_worker w r)) o
  unfolding handle_timeout
  too_late t tk r none h = tt
  too_late t tk r (some w) h = rw (h, handle_timeout) refl

  -- When the time of a pending request has run out, the client gets a response with the code 504,
  -- from its first byte on, and the stream is pending no more; and when the Python code comes to its
  -- end after all, its response leads to nothing. If instead the response of the Python code is
  -- carried out first, the end of the time changes nothing. So a stream has one response or the other.
  pub handle_timeout-late :
      (f : Format Response) (cfg : Config) (t : Turn Method Url) (now tk stream : ℕ)
      (registered : Result Bytes (Unit {0})) (r : Round Method Url) (resp : HttpResponse Method Url)
      → IsMap r.worker.server_pending_streams
      → lookup tk r.worker.server_pending_streams ≡ some stream
      → (r' : Round Method Url) × (answer : CasketResponse) × (handle_timeout t tk python_code r
          ≡ next r')
        × (r'.results ≡ r.results ++ ok (server_casket_response_new tk stream answer) ∷ [])
        × Is504 answer
        × (lookup tk r'.worker.server_pending_streams ≡ none)
        × ((take_response (tk, resp) r'.worker.python_threads).1 ≡ [])
        × OnSome
            (λ w. handle_timeout t tk python_code (set_worker w r) ≡ next (set_worker w r))
            (handle_action f cfg now registered (server_new_response tk resp) r.worker)
  unfolding handle_timeout new_504_gateway_timeout
  handle_timeout-late f cfg t now tk stream registered r resp m h = (
    record r {
      results = r.results ++ ok (new_504_gateway_timeout tk stream) ∷ [];
      worker = record (r.worker) {
        server_pending_streams = remove tk r.worker.server_pending_streams;
        python_threads = timeout_request tk r.worker.python_threads;
      };
    },
    record {
      code = 504;
      response = http_504_response;
      reason = codes "gateway timeout";
      bytes_sent = 0;
    },
    rw (h, handle_timeout) refl,
    refl,
    (refl, refl, refl),
    lookup-remove_self tk r.worker.server_pending_streams m,
    late_lem tk resp r.worker.python_threads,
    too_late t tk r (handle_action f cfg now registered (server_new_response tk resp) r.worker)
        (forwarded-Forgets f cfg now tk stream registered r.worker resp m h),
  )
