-- ===== src/Worker/Actions.antt =====
-- src/worker/actions.rs. A stream stands as the descriptor that it is.
use casket.Base.{ℕ, Bytes, codes, Result}
use casket.Http.{HttpError, HttpRequest, HttpResponse}
use casket.Worker.Reader.{Reader}
use casket.Worker.Writer.{Writer}

abbrev pub http_408_response : Bytes
http_408_response =
    codes "HTTP/1.1 408 Request Timeout\r\nServer: Casket\r\nConnection: Close\r\n\r\n"

abbrev pub http_503_response : Bytes
http_503_response = codes "HTTP/1.1 503 Service Busy\r\nServer: Casket\r\nConnection: Close\r\n\r\n"

abbrev pub http_504_response : Bytes
http_504_response =
    codes "HTTP/1.1 504 Gateway Timeout\r\nServer: Casket\r\nConnection: Close\r\n\r\n"

pub record CasketResponse : Type 0 where
  pub code : ℕ
  pub response : Bytes
  pub reason : Bytes
  pub bytes_sent : ℕ

pub data Action (Method Url : Type 0) : Type 0 where
  new_server_request : ℕ → ℕ → Action Method Url
  server_continue_read : ℕ → Reader Method Url → ℕ → Action Method Url
  server_read_done : ℕ → HttpRequest Method Url → ℕ → Action Method Url
  server_stream_eof : ℕ → ℕ → Action Method Url
  server_new_response : ℕ → HttpResponse Method Url → Action Method Url
  server_continue_write : ℕ → Writer Method Url → ℕ → Action Method Url
  server_done_write : ℕ → HttpResponse Method Url → ℕ → Action Method Url
  server_casket_response_new : ℕ → ℕ → CasketResponse → Action Method Url
  server_casket_response_continue : ℕ → ℕ → CasketResponse → Action Method Url
  server_casket_response_done : ℕ → ℕ → CasketResponse → Action Method Url
  server_python_code_timeout_new : ℕ → ℕ → Action Method Url

-- The one source of errors, `ErrorSource::Server`, is left out.
pub record Error : Type 0 where
  pub error : HttpError
  pub token : ℕ
  pub tcp_stream : ℕ

abbrev pub ActionResult : Type 0 → Type 0 → Type 0
ActionResult Method Url = Result Error (Action Method Url)

module _ {Method Url : Type 0} where
  unfoldable pub new_408_timeout : ℕ → ℕ → Action Method Url
  new_408_timeout tk tcp_stream = server_casket_response_new tk tcp_stream (record {
    code = 408;
    response = http_408_response;
    reason = codes "request read timeout";
    bytes_sent = 0;
  })

  unfoldable pub new_503_service_busy : ℕ → ℕ → Action Method Url
  new_503_service_busy tk tcp_stream = server_casket_response_new tk tcp_stream (record {
    code = 503;
    response = http_503_response;
    reason = codes "service busy";
    bytes_sent = 0;
  })

  unfoldable pub new_504_gateway_timeout : ℕ → ℕ → Action Method Url
  new_504_gateway_timeout tk tcp_stream = server_casket_response_new tk tcp_stream (record {
    code = 504;
    response = http_504_response;
    reason = codes "gateway timeout";
    bytes_sent = 0;
  })
