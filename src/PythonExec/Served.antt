-- ===== src/PythonExec/Served.antt =====
-- What a Python thread does with the requests that it receives.
use casket.Base.{ℕ, ◌≡◌, Option, none, some, true, List, [], ◌∷◌, ◌++◌, All, Bytes}
use casket.Config.{Config}
use casket.Http.{Context, HttpRequest, HttpResponse, HttpResponseHeader}
use casket.PythonExec.{
  Event, started, logged, raised, responded, body_sent, body_closed, body_events, Received, Done,
}
use casket.ReqLocal.{ReqLocal}
use casket.Wsgi.Environ.{Environ, HttpTypes, build_environ}
use casket.Wsgi.Execute.{Call, Logged, Thread, call1}
use casket.Wsgi.Logged.{IsTagged}
use casket.Wsgi.StartResponse.{ParseResponse}
use casket.PythonExec.Outcome.{Answer, Gives}

module _ {Method Url : Type 0} where
  -- An event that goes to the log, and says which trace it belongs to.
  abbrev pub IsLog : Context → Event Method Url → Type 0
  IsLog ctx (logged line) = IsTagged ctx line
  IsLog ctx (raised trace e) = trace ≡ ctx
  IsLog ctx (started key now) = ⊥
  IsLog ctx (responded key response) = ⊥
  IsLog ctx (body_sent key part) = ⊥
  IsLog ctx (body_closed key) = ⊥

module _ {Method Url : Type 0} where
  -- The response is that to the request.
  abbrev pub IsFor : HttpRequest Method Url → HttpResponse Method Url → Type 0
  IsFor req response =
      (response.context ≡ req.context)
      × (response.keep_alive ≡ req.keep_alive)
      × (response.method ≡ req.method)
      × (response.url ≡ req.url)

  -- The response has the status and the headers.
  abbrev pub Bears : HttpResponseHeader → HttpResponse Method Url → Type 0
  Bears header response =
      (response.code ≡ header.code)
      × (response.reason ≡ header.reason)
      × (response.resp_headers ≡ header.headers)

  -- The request that is answered is the one that was received, but for its headers and body.
  abbrev KeepsRequest : HttpRequest Method Url → HttpRequest Method Url → Type 0
  KeepsRequest req req' =
      (req'.context ≡ req.context)
      × (req'.keep_alive ≡ req.keep_alive)
      × (req'.method ≡ req.method)
      × (req'.url ≡ req.url)

  -- The round of one request, whose call of the application came to `a`.
  abbrev ServesOne : Config → Received Method Url → Answer → Option (Done Method Url) → Type 0
  ServesOne cfg r a result =
      (done : Done Method Url) × (log : List (Event Method Url)) × (response : HttpResponse Method
        Url)
      × (header : HttpResponseHeader) × (parts : List Bytes) × (result ≡ some done)
      × (done.goes_on ≡ true)
      × (done.events
          ≡ started r.key r.now ∷ log ++ responded r.key response ∷ body_events r.key parts)
      × All (IsLog r.http_req.context) log
      × IsFor r.http_req response
      × Bears header response
      × Gives cfg a header parts

abbrev pub IsAlive : {Method Url : Type 0} → Received Method Url → Type 0
IsAlive r = (r.starts_alive ≡ true) × (r.responses_alive ≡ true)

module _ {Method Url : Type 0} (parse : ParseResponse) (types : HttpTypes Method Url) (cfg : Config)
    (server : Bytes × ℕ) (wsgi_callable : Environ → Call) where
  -- The application as it is called for a request.
  abbrev pub call_for : HttpRequest Method Url → Call
  call_for req = wsgi_callable (build_environ types server req).1

  -- The thread as it begins with a request, whatever an earlier one has left.
  abbrev pub anew : HttpRequest Method Url → Thread
  anew req = record {
    local = record { context = some req.context; response_header = none };
    logged = [];
  }

  -- One request after the other, each once and under its key: its start, what goes to the log under
  -- its trace, the response to it, with what its call of the application gives, and the end of the
  -- body.
  abbrev pub Serves : List (Received Method Url) → List (Event Method Url) → Type 0
  Serves [] events = events ≡ []
  Serves (r ∷ rs) events =
      (log : List (Event Method Url)) × (response : HttpResponse Method Url) × (a : Answer)
      × (header : HttpResponseHeader) × (parts : List Bytes) × (rest : List (Event Method Url))
      × (events
          ≡ started r.key r.now ∷ log
            ++ responded r.key response ∷ (body_events r.key parts ++ rest))
      × All (IsLog r.http_req.context) log
      × IsFor r.http_req response
      × Bears header response
      × (call1 parse (call_for r.http_req) (anew r.http_req) ≡ some a)
      × Gives cfg a header parts
      × Serves rs rest
