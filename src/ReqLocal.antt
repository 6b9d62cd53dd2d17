-- ===== src/ReqLocal.antt =====
-- src/pythonexec/reqlocal.rs: what a Python thread knows of the request it works on.
use casket.Base.{Option, none, some}
use casket.Http.{Context, HttpResponseHeader}

-- The thread-local variables.
pub record ReqLocal : Type 0 where
  pub context : Option Context
  pub response_header : Option HttpResponseHeader

unfoldable pub set_context : Context → ReqLocal → ReqLocal
set_context ctx s = record s { context = some ctx }

unfoldable pub get_context : ReqLocal → Option Context
get_context s = s.context

unfoldable pub init_req_thread : ReqLocal → ReqLocal
init_req_thread s = record { context = none; response_header = none }

unfoldable pub put_response_header : HttpResponseHeader → ReqLocal → ReqLocal
put_response_header header s = record s { response_header = some header }

unfoldable pub take_response_header : ReqLocal → ReqLocal × Option HttpResponseHeader
take_response_header s = (record s { response_header = none }, s.response_header)
