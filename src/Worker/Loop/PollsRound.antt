-- ===== src/Worker/Loop/PollsRound.antt =====
-- The poller over a whole round: no event that a stream comes from the server is left in it.
use casket.Base.{
  OnSome, ℕ, inl, inr, Bool-cases, Option, none, some, Option-cases, List, [], ◌∷◌, Bytes, Result,
  leb,
}
use casket.Base.Map.{lookup}
use casket.Config.{Config}
use casket.Msgs.Wire.{Request, Response, Format}
use casket.Msgs.WorkerBuffer.{read_unix_stream, has_data_to_send}
use casket.Worker.Events.{
  Event, ctrl_c, unix_stream_read, unix_stream_write, new_stream_fd, server_stream_read,
  queued_requests, poll_python_responses, server_stream_write, request_read_timeout,
  casket_response_write, python_code_timeout, Timeout, request_read, python_code,
}
use casket.Worker.Loop.{
  Io, Round, Turn, next, and_then, handle_event, handle_events, handle_timeout, handle_timeouts,
  drain_results, reregister_unix, handle_all, unix_stream_token,
}
use casket.Worker.Loop.Placed.{Continues, and_then-Continues, or_fail-Continues}
use casket.Worker.Loop.Polls.{Polls, handle_results-Polls, reads_plain, both_plain}
use casket.Worker.PythonThreads.{send_queued_requests}
use casket.Worker.Reader.{Library}
use casket.Worker.{Worker, ◌>>=◌, event_server_stream_read}

module _ {Method Url : Type 0} where
  abbrev pub RoundPolls : Round Method Url → Type 0
  RoundPolls r = Polls r.worker

module _ {Method Url : Type 0} (lib : Library Method Url) (requests : Format Request)
    (responses : Format Response) where
  handle_event-Polls :
      (cfg : Config) (io : Io Method Url) (tk : ℕ) (ev : Event) (r : Round Method Url)
      → Polls r.worker
      → Continues RoundPolls (handle_event lib requests cfg io tk ev r)
  unfolding handle_event
  handle_event-Polls cfg io tk ctrl_c r h = h
  handle_event-Polls cfg io tk unix_stream_read r h =
      elim (Option-cases (read_unix_stream requests r.worker.msg_buf io.unix_read io.unix_fds)) [
        | inl e ↦ rw (e, handle_event) tt
        | inr (got, e) ↦ rw (e, handle_event) (or_fail-Continues RoundPolls _ _ h)
      ]
  handle_event-Polls cfg io tk unix_stream_write r h = or_fail-Continues RoundPolls _ _ h
  handle_event-Polls cfg io tk (new_stream_fd fd) r h =
      elim (Bool-cases (leb cfg.max_requests r.worker.python_threads.num_pending_reqs)) [
        | inl e ↦ rw (e, handle_event) h
        | inr e ↦ rw (e, handle_event) h
      ]
  handle_event-Polls cfg io tk server_stream_read r h =
      elim (Option-cases (lookup tk r.worker.server_reading_streams)) [
        | inl e ↦ rw (e, handle_event) tt
        | inr (s, e) ↦
            elim (Option-cases (event_server_stream_read lib io.random tk s.0 s.1 io.tcp_read)) [
              | inl e' ↦ rw (e, handle_event) (rw e' tt)
              | inr (a, e') ↦ rw (e, handle_event) (rw e' h)
            ]
      ]
  handle_event-Polls cfg io tk queued_requests r h =
      elim (Option-cases (send_queued_requests r.worker.python_threads)) [
        | inl e ↦ rw (e, handle_event) tt
        | inr (sent, e) ↦ rw (e, handle_event) (or_fail-Continues RoundPolls _ _ h)
      ]
  handle_event-Polls cfg io tk poll_python_responses r h = or_fail-Continues RoundPolls _ _ h
  handle_event-Polls cfg io tk server_stream_write r h =
      elim (Option-cases (lookup tk r.worker.server_writing_streams)) [
        | inl e ↦ rw (e, handle_event) tt
        | inr (s, e) ↦ rw (e, handle_event) h
      ]
  handle_event-Polls cfg io tk request_read_timeout r h = h
  handle_event-Polls cfg io tk casket_response_write r h =
      elim (Option-cases (lookup tk r.worker.server_casket_responses)) [
        | inl e ↦ rw (e, handle_event) tt
        | inr (s, e) ↦ rw (e, handle_event) h
      ]
  handle_event-Polls cfg io tk python_code_timeout r h = h

  handle_events-Polls :
      (cfg : Config) (t : Turn Method Url) (evs : List (ℕ × Event)) (r : Round Method Url)
      → Polls r.worker
      → Continues RoundPolls (handle_events lib requests responses cfg t evs r)
  unfolding handle_events
  handle_events-Polls cfg t [] r h = h
  handle_events-Polls cfg t ((tk, ev) ∷ evs) r h =
      and_then-Continues RoundPolls RoundPolls (handle_event lib requests cfg (t.io tk ev) tk ev r)
        (handle_events lib requests responses cfg t evs)
        (handle_event-Polls cfg (t.io tk ev) tk ev r h)
        (λ r' _ h'. handle_events-Polls cfg t evs r' h')

  handle_timeout-Polls :
      (t : Turn Method Url) (tk : ℕ) (ev : Timeout) (r : Round Method Url)
      → Polls r.worker
      → Continues RoundPolls (some (handle_timeout t tk ev r))
  unfolding handle_timeout
  handle_timeout-Polls t tk request_read r h =
      elim (Option-cases (lookup tk r.worker.server_reading_streams)) [
        | inl e ↦ rw (e, handle_timeout) h
        | inr (s, e) ↦ rw (e, handle_timeout) (or_fail-Continues RoundPolls _ _ h)
      ]
  handle_timeout-Polls t tk python_code r h =
      elim (Option-cases (lookup tk r.worker.server_pending_streams)) [
        | inl e ↦ rw (e, handle_timeout) h
        | inr (s, e) ↦ rw (e, handle_timeout) h
      ]

  handle_timeouts-Polls :
      (t : Turn Method Url) (evs : List (ℕ × Timeout)) (r : Round Method Url)
      → Polls r.worker
      → Continues RoundPolls (handle_timeouts lib requests responses t evs r)
  unfolding handle_timeouts
  handle_timeouts-Polls t [] r h = h
  handle_timeouts-Polls t ((tk, ev) ∷ evs) r h =
      and_then-Continues RoundPolls RoundPolls (some (handle_timeout t tk ev r))
        (handle_timeouts lib requests responses t evs) (handle_timeout-Polls t tk ev r h)
        (λ r' _ h'. handle_timeouts-Polls t evs r' h')

  drained-Polls :
      (o : Option (Worker Method Url)) (r : Round Method Url)
      → OnSome Polls o
      → Continues RoundPolls (o >>= λ w. some (next (record r { worker = w; results = [] })))
  drained-Polls none r h = tt
  drained-Polls (some w) r h = h

  drain_results-Polls :
      (cfg : Config) (now : ℕ) (answers : ℕ → Result Bytes (Unit {0})) (r : Round Method Url)
      → Polls r.worker
      → Continues RoundPolls (drain_results lib requests responses cfg now answers r)
  unfolding drain_results
  drain_results-Polls cfg now answers r h =
      drained-Polls _ r (handle_results-Polls responses cfg now answers 0 r.results r.worker h)

  reregister_unix-Polls :
      (t : Turn Method Url) (r : Round Method Url)
      → Polls r.worker
      → Continues RoundPolls (reregister_unix lib requests responses t r)
  unfolding reregister_unix
  reregister_unix-Polls t r h =
      or_fail-Continues RoundPolls _ _ (elim (Bool-cases (has_data_to_send r.worker.msg_buf)) [
        | inl e ↦
            rw e (
              both_plain unix_stream_token unix_stream_read unix_stream_write r.worker.poll tt tt h)
        | inr e ↦ rw e (reads_plain unix_stream_token unix_stream_read r.worker.poll tt h)
      ])

  pub handle_all-Polls :
      (cfg : Config) (t : Turn Method Url) (events : List (ℕ × Event)) (r : Round Method Url)
      → Polls r.worker
      → Continues RoundPolls (handle_all lib requests responses cfg t events r)
  unfolding handle_all
  handle_all-Polls cfg t events r h =
      let drain = drain_results lib requests responses cfg t.now in
      let handled = handle_events lib requests responses cfg t events r in
      let drained = and_then handled (drain t.registry) in
      let late = λ (r : Round Method Url).
        handle_timeouts lib requests responses t r.timeouts (record r { timeouts = [] }) in
      let done = and_then (and_then drained late) (drain t.timeout_registry) in
      and_then-Continues RoundPolls RoundPolls done (reregister_unix lib requests responses t)
        (and_then-Continues RoundPolls RoundPolls (and_then drained late) (drain t.timeout_registry)
          (and_then-Continues RoundPolls RoundPolls drained late
            (and_then-Continues RoundPolls RoundPolls handled (drain t.registry)
              (handle_events-Polls cfg t events r h)
              (λ r₁ _ h₁. drain_results-Polls cfg t.now t.registry r₁ h₁))
            (λ r₂ _ h₂. handle_timeouts-Polls t r₂.timeouts (record r₂ { timeouts = [] }) h₂))
          (λ r₃ _ h₃. drain_results-Polls cfg t.now t.timeout_registry r₃ h₃))
        (λ r₄ _ h₄. reregister_unix-Polls t r₄ h₄)
