-- ===== src/Worker/Loop/Leaves.antt =====
-- The pending streams that an action or an error is not about.
use casket.Base.{
  ℕ, ◌≡◌, ◌≢◌, refl, ◌∙◌, inl, inr, Option-cases, false, Option, none, some, Bytes, Result, ok, err,
  arith,
}
use casket.Base.Map.{Map, lookup, insert, lookup-insert, lookup-remove_ne}
use casket.Config.{Config}
use casket.Http.{HttpError, io, header_parse, bad_value}
use casket.Msgs.Wire.{Response, Format}
use casket.Msgs.WorkerBuffer.{
  WorkerMsgBuffer, resp_io_error, resp_bad_client, resp_stream_reg_error, resp_stream_done_ok,
}
use casket.Worker.Actions.{
  Action, Error, new_server_request, server_continue_read, server_read_done, server_stream_eof,
  server_new_response, server_continue_write, server_done_write, server_casket_response_new,
  server_casket_response_continue, server_casket_response_done, server_python_code_timeout_new,
}
use casket.Worker.Handed.{token_of}
use casket.Worker.{
  Worker, answer, unless_err, handle_action, handle_error, answer_error, add_time, ◌>>=◌,
}

-- `tk` is pending after a step exactly if it was before.
abbrev pub Leaves :
    {Method Url : Type 0} → ℕ → Worker Method Url → Option (Worker Method Url) → Type 0
Leaves {Method} {Url} tk w o =
    (w' : Worker Method Url)
    → o ≡ some w'
    → lookup tk w'.server_pending_streams ≡ lookup tk w.server_pending_streams

lookup-insert_ne :
    {V : Type 0} (k j : ℕ) (v : V) (m : Map V) → j ≢ k → lookup j (insert k v m) ≡ lookup j m
lookup-insert_ne k j v m h = lookup-insert k j v m ∙ (ground arith)

module _ {Method Url : Type 0} (f : Format Response) where
  answer-Leaves :
      (tk : ℕ) (w : Worker Method Url) (resp : WorkerMsgBuffer → Option WorkerMsgBuffer)
      → Leaves tk w (answer f w resp)
  answer-Leaves tk w resp w' e = elim (Option-cases (resp w.msg_buf)) [
    | inl none_e ↦ ground arith
    | inr (b, some_e) ↦ ground arith
  ]

  some-Leaves :
      (tk : ℕ) (w v : Worker Method Url)
      → lookup tk v.server_pending_streams ≡ lookup tk w.server_pending_streams
      → Leaves tk w (some v)
  some-Leaves tk w v h w' e = ground arith

  bind-Leaves :
      {A : Type 0} (tk : ℕ) (w : Worker Method Url) (o : Option A)
      (g : A → Option (Worker Method Url))
      → ((a : A) → Leaves tk w (g a))
      → Leaves tk w (o >>= g)
  bind-Leaves tk w none g h w' e = ground arith
  bind-Leaves tk w (some a) g h w' e = h a w' e

  unless_err-Leaves :
      (tk j : ℕ) (r : Result Bytes (Unit {0})) (w v : Worker Method Url)
      (rest : Option (Worker Method Url))
      → lookup tk v.server_pending_streams ≡ lookup tk w.server_pending_streams
      → Leaves tk w rest
      → Leaves tk w (unless_err f r j v rest)
  unless_err-Leaves tk j (ok _) w v rest h l w' e = l w' e
  unless_err-Leaves tk j (err x) w v rest h l w' e =
      answer-Leaves tk v (λ b. resp_stream_reg_error f b j x) w' e ∙ h

  pub handle_action-Leaves :
      (cfg : Config) (now : ℕ) (r : Result Bytes (Unit {0})) (act : Action Method Url)
      (w : Worker Method Url) (tk : ℕ)
      → tk ≢ token_of f act
      → Leaves tk w (handle_action f cfg now r act w)
  unfolding handle_action
  handle_action-Leaves cfg now r (new_server_request j stream) w tk h =
      unless_err-Leaves tk j r w _ _ refl
        (bind-Leaves tk w (add_time now cfg.request_read_timeout) _ (λ n. some-Leaves tk w _ refl))
  handle_action-Leaves cfg now r (server_continue_read j reader stream) w tk h =
      unless_err-Leaves tk j r w _ _ refl (some-Leaves tk w _ refl)
  handle_action-Leaves cfg now r (server_read_done j req stream) w tk h =
      unless_err-Leaves tk j r w _ _ refl
        (some-Leaves tk w _ (lookup-insert_ne j tk stream w.server_pending_streams h))
  handle_action-Leaves cfg now r (server_stream_eof j stream) w tk h =
      unless_err-Leaves tk j r w _ _ refl
        (answer-Leaves tk w (λ b. resp_stream_done_ok f b j stream false))
  handle_action-Leaves cfg now r (server_new_response j resp) w tk h =
      elim (Option-cases (lookup j w.server_pending_streams)) [
        | inl none_e ↦ λ w' e. ground arith
        | inr (stream, some_e) ↦
            let left = lookup-remove_ne j tk w.server_pending_streams h in
            rw (some_e, handle_action)
              (unless_err-Leaves tk j r w _ _ left (some-Leaves tk w _ left))
      ]
  handle_action-Leaves cfg now r (server_continue_write j writer stream) w tk h =
      unless_err-Leaves tk j r w _ _ refl (some-Leaves tk w _ refl)
  handle_action-Leaves cfg now r (server_done_write j resp stream) w tk h =
      unless_err-Leaves tk j r w _ _ refl
        (answer-Leaves tk w (λ b. resp_stream_done_ok f b j stream resp.keep_alive))
  handle_action-Leaves cfg now r (server_casket_response_new j stream resp) w tk h =
      unless_err-Leaves tk j r w _ _ refl (some-Leaves tk w _ refl)
  handle_action-Leaves cfg now r (server_casket_response_continue j stream resp) w tk h =
      unless_err-Leaves tk j r w _ _ refl (some-Leaves tk w _ refl)
  handle_action-Leaves cfg now r (server_casket_response_done j stream resp) w tk h =
      unless_err-Leaves tk j r w _ _ refl
        (answer-Leaves tk w (λ b. resp_stream_done_ok f b j stream false))
  handle_action-Leaves cfg now r (server_python_code_timeout_new j st) w tk h =
      bind-Leaves tk w (add_time st cfg.python_code_timeout) _ (λ n. some-Leaves tk w _ refl)

  answer_error-Leaves :
      (tk j : ℕ) (e : HttpError) (w : Worker Method Url) → Leaves tk w (answer_error f e j w)
  unfolding answer_error
  answer_error-Leaves tk j (io why text) w = answer-Leaves tk w (λ b. resp_io_error f b j text)
  answer_error-Leaves tk j (header_parse x) w = answer-Leaves tk w (λ b. resp_bad_client f b j)
  answer_error-Leaves tk j (bad_value x) w = answer-Leaves tk w (λ b. resp_bad_client f b j)

  pub handle_error-Leaves :
      (tk : ℕ) (r : Result Bytes (Unit {0})) (e : Error) (w : Worker Method Url)
      → Leaves tk w (handle_error f r e w)
  unfolding handle_error
  handle_error-Leaves tk r e w =
      unless_err-Leaves tk e.token r w _ _ refl (answer_error-Leaves tk e.token e.error w)
