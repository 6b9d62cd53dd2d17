-- ===== src/Worker/Loop/Results.antt =====
-- The results of one round are all carried out.
use casket.Base.{ℕ, ◌≡◌, ◌≢◌, Bool, true, Option, none, some, List, [], ◌∷◌, ok, err, All}
use casket.Base.Map.{lookup}
use casket.Config.{Config}
use casket.Msgs.Wire.{Response, Format}
use casket.Worker.Actions.{
  Action, ActionResult, new_server_request, server_continue_read, server_read_done,
  server_stream_eof, server_new_response, server_continue_write, server_done_write,
  server_casket_response_new, server_casket_response_continue, server_casket_response_done,
  server_python_code_timeout_new,
}
use casket.Worker.Handed.{needs, InTime}
use casket.Worker.{Worker}

module _ {Method Url : Type 0} (f : Format Response) where
  -- The token whose stream an action is about; a start of Python code is about a timer alone.
  abbrev pub action_key : Action Method Url → Option ℕ
  action_key (server_python_code_timeout_new tk st) = none
  action_key (new_server_request tk stream) = some tk
  action_key (server_continue_read tk reader stream) = some tk
  action_key (server_read_done tk req stream) = some tk
  action_key (server_stream_eof tk stream) = some tk
  action_key (server_new_response tk resp) = some tk
  action_key (server_continue_write tk writer stream) = some tk
  action_key (server_done_write tk resp stream) = some tk
  action_key (server_casket_response_new tk stream resp) = some tk
  action_key (server_casket_response_continue tk stream resp) = some tk
  action_key (server_casket_response_done tk stream resp) = some tk

  abbrev pub key : ActionResult Method Url → Option ℕ
  key (ok act) = action_key act
  key (err e) = some e.token

  abbrev pub needed : ActionResult Method Url → Worker Method Url → Bool
  needed (ok act) w = needs f act w
  needed (err e) w = true

  abbrev pub IsOpen : Option ℕ → Worker Method Url → Type 0
  IsOpen none w = Unit
  IsOpen (some tk) w = (fd : ℕ) × (lookup tk w.msg_buf.server_fds ≡ some fd)

  -- The server waits for an answer about the stream, and a response of Python code finds it pending.
  abbrev pub IsReady : Worker Method Url → ActionResult Method Url → Type 0
  IsReady w a = IsOpen (key a) w × (needed a w ≡ true)

  -- Its timer is before the end of time.
  abbrev pub IsEarly : Config → ℕ → ActionResult Method Url → Type 0
  IsEarly cfg now (ok act) = InTime f cfg now act
  IsEarly cfg now (err e) = Unit

  -- No two results are about one stream.
  abbrev pub IsDistinct : List (ActionResult Method Url) → Type 0
  IsDistinct [] = Unit
  IsDistinct (a ∷ rest) =
      All (λ b. (tk : ℕ) → key b ≡ some tk → key a ≢ some tk) rest × IsDistinct rest

  -- The other streams stay as they are.
  abbrev pub Keeps : Option ℕ → Worker Method Url → Worker Method Url → Type 0
  Keeps k w w' =
      (tk : ℕ)
      → k ≢ some tk
      → (lookup tk w'.msg_buf.server_fds ≡ lookup tk w.msg_buf.server_fds)
        × (lookup tk w'.server_pending_streams ≡ lookup tk w.server_pending_streams)
