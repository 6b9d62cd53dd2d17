-- ===== src/Worker/Loop/EventSteps.antt =====
-- The events of a round: no stream is lost.
use casket.Base.{
  ℕ, ◌≤◌, ◌≡◌, refl, inl, inr, Bool-cases, some, Option-cases, List, [], ◌∷◌, ◌++◌, arith, leb,
}
use casket.Base.Map.{lookup, remove, remove-IsMap}
use casket.Config.{Config}
use casket.Msgs.WorkerBuffer.{read_unix_stream, write_unix_stream}
use casket.Msgs.Wire.{Request, Response, Format}
use casket.Worker.Actions.{new_503_service_busy}
use casket.Worker.Events.{
  Event, ctrl_c, unix_stream_read, unix_stream_write, new_stream_fd, server_stream_read,
  queued_requests, poll_python_responses, server_stream_write, request_read_timeout,
  casket_response_write, python_code_timeout,
}
use casket.Worker.Loop.{Io, Round, Turn, next, handle_event, handle_events}
use casket.Worker.Loop.Moved.{moved, responds, sum}
use casket.Worker.Loop.Flow.{in_map, in_map-remove}
use casket.Worker.PythonThreads.{take_responses, send_queued_requests}
use casket.Worker.Reader.{Library}
use casket.Worker.{event_server_stream_read}
use casket.Worker.Loop.Brings.{
  sum-append, brings_read, brings_write, brings_casket, take_responses-moved, read_unix_stream-fds,
  write_unix_stream-fds,
}
use casket.Worker.Loop.Placed.{
  Continues, and_then-Continues, InRound, or_fail-Continues, set_buffer-InRound, pushed-InRound,
  come-InRound,
}

module _ {Method Url : Type 0} (lib : Library Method Url) (requests : Format Request) where
  -- The responses of the threads that are forwarded find their streams pending, one each.
  abbrev pub Expected : Io Method Url → Event → Round Method Url → Type 0
  Expected io poll_python_responses r =
      (k : ℕ)
      → sum responds k
          (r.results ++ (take_responses io.starts io.responses r.worker.python_threads).1)
        ≤ in_map k r.worker.server_pending_streams
  Expected io ev r = Unit

  handle_event-InRound :
      (cfg : Config) (io : Io Method Url) (tk : ℕ) (ev : Event) (evs : List (ℕ × Event))
      (r : Round Method Url)
      → InRound ((tk, ev) ∷ evs) r
      → Expected io ev r
      → Continues (InRound evs) (handle_event lib requests cfg io tk ev r)
  unfolding handle_event new_503_service_busy
  handle_event-InRound cfg io tk ctrl_c evs r h ex = record {
    maps = h.maps;
    balanced = h.balanced;
    expected = h.expected;
  }
  handle_event-InRound cfg io tk unix_stream_read evs r h ex =
      elim (Option-cases (read_unix_stream requests r.worker.msg_buf io.unix_read io.unix_fds)) [
        | inl e ↦ rw (e, handle_event) tt
        | inr (got, e) ↦
            rw (e, handle_event)
              (or_fail-Continues (InRound evs) _ _ (
                set_buffer-InRound evs r got.0
                  (read_unix_stream-fds requests r.worker.msg_buf io.unix_read io.unix_fds got e)
                  (record { maps = h.maps; balanced = h.balanced; expected = h.expected })))
      ]
  handle_event-InRound cfg io tk unix_stream_write evs r h ex =
      or_fail-Continues (InRound evs) _ _ (
        set_buffer-InRound evs r (write_unix_stream r.worker.msg_buf io.unix_write).0
          (write_unix_stream-fds r.worker.msg_buf io.unix_write)
          (record { maps = h.maps; balanced = h.balanced; expected = h.expected }))
  handle_event-InRound cfg io tk (new_stream_fd fd) evs r h ex =
      elim (Bool-cases (leb cfg.max_requests r.worker.python_threads.num_pending_reqs)) [
        | inl e ↦ rw (e, handle_event) (come-InRound tk fd evs r _ h (λ k. (refl, refl)))
        | inr e ↦ rw (e, handle_event) (come-InRound tk fd evs r _ h (λ k. (refl, refl)))
      ]
  handle_event-InRound cfg io tk server_stream_read evs r h ex =
      elim (Option-cases (lookup tk r.worker.server_reading_streams)) [
        | inl e ↦ rw (e, handle_event) tt
        | inr (s, e) ↦
            elim (Option-cases (event_server_stream_read lib io.random tk s.0 s.1 io.tcp_read)) [
              | inl e' ↦ rw (e, handle_event) (rw e' tt)
              | inr (a, e') ↦
                  rw (e, handle_event)
                    (rw e' (
                      pushed-InRound evs tk r
                        (record (r.worker) {
                          server_reading_streams = remove tk r.worker.server_reading_streams;
                        })
                        a (record { maps = h.maps; balanced = h.balanced; expected = h.expected })
                        (record {
                          reading = remove-IsMap tk r.worker.server_reading_streams h.maps.reading;
                          pending = h.maps.pending;
                          writing = h.maps.writing;
                          casket = h.maps.casket;
                          fds = h.maps.fds;
                        })
                        refl
                        (λ k. omega (
                          arith,
                          in_map-remove tk k s r.worker.server_reading_streams h.maps.reading e,
                        ))
                        (λ k. refl) (λ k. brings_read lib io.random tk s.0 k s.1 io.tcp_read a e')))
            ]
      ]
  handle_event-InRound cfg io tk queued_requests evs r h ex =
      elim (Option-cases (send_queued_requests r.worker.python_threads)) [
        | inl e ↦ rw (e, handle_event) tt
        | inr (sent, e) ↦
            rw (e, handle_event)
              (or_fail-Continues (InRound evs) _ _ (record {
                maps = record {
                  reading = h.maps.reading;
                  pending = h.maps.pending;
                  writing = h.maps.writing;
                  casket = h.maps.casket;
                  fds = h.maps.fds;
                };
                balanced = h.balanced;
                expected = h.expected;
              }))
      ]
  handle_event-InRound cfg io tk poll_python_responses evs r h ex =
      or_fail-Continues (InRound evs) _ _ (record {
        maps = record {
          reading = h.maps.reading;
          pending = h.maps.pending;
          writing = h.maps.writing;
          casket = h.maps.casket;
          fds = h.maps.fds;
        };
        balanced = λ k. omega (
          arith,
          h.balanced k,
          take_responses-moved k io.starts io.responses r.worker.python_threads,
          sum-append moved k r.results
              (take_responses io.starts io.responses r.worker.python_threads).1,
        );
        expected = ex;
      })
  handle_event-InRound cfg io tk server_stream_write evs r h ex =
      elim (Option-cases (lookup tk r.worker.server_writing_streams)) [
        | inl e ↦ rw (e, handle_event) tt
        | inr (s, e) ↦
            rw (e, handle_event)
              (pushed-InRound evs tk r
                (record (r.worker) {
                  server_writing_streams = remove tk r.worker.server_writing_streams;
                })
                _ (record { maps = h.maps; balanced = h.balanced; expected = h.expected })
                (record {
                  reading = h.maps.reading;
                  pending = h.maps.pending;
                  writing = remove-IsMap tk r.worker.server_writing_streams h.maps.writing;
                  casket = h.maps.casket;
                  fds = h.maps.fds;
                })
                refl
                (λ k.
                  omega
                    (arith, in_map-remove tk k s r.worker.server_writing_streams h.maps.writing e))
                (λ k. refl) (λ k. brings_write tk s.0 k s.1 io.tcp_write))
      ]
  handle_event-InRound cfg io tk request_read_timeout evs r h ex = record {
    maps = h.maps;
    balanced = h.balanced;
    expected = h.expected;
  }
  handle_event-InRound cfg io tk casket_response_write evs r h ex =
      elim (Option-cases (lookup tk r.worker.server_casket_responses)) [
        | inl e ↦ rw (e, handle_event) tt
        | inr (s, e) ↦
            rw (e, handle_event)
              (pushed-InRound evs tk r
                (record (r.worker) {
                  server_casket_responses = remove tk r.worker.server_casket_responses;
                })
                _ (record { maps = h.maps; balanced = h.balanced; expected = h.expected })
                (record {
                  reading = h.maps.reading;
                  pending = h.maps.pending;
                  writing = h.maps.writing;
                  casket = remove-IsMap tk r.worker.server_casket_responses h.maps.casket;
                  fds = h.maps.fds;
                })
                refl
                (λ k.
                  omega
                    (arith, in_map-remove tk k s r.worker.server_casket_responses h.maps.casket e))
                (λ k. refl) (λ k. brings_casket Method Url tk s.0 k s.1 io.tcp_write))
      ]
  handle_event-InRound cfg io tk python_code_timeout evs r h ex = record {
    maps = h.maps;
    balanced = h.balanced;
    expected = h.expected;
  }

  -- The events of a round, whose forwarded responses find their streams pending.
  unfoldable pub AllExpected :
      Config → Turn Method Url → List (ℕ × Event) → Round Method Url → Type 0
  AllExpected cfg t [] r = Unit
  AllExpected cfg t ((tk, ev) ∷ evs) r =
      Expected (t.io tk ev) ev r
      × ((r' : Round Method Url)
          → handle_event lib requests cfg (t.io tk ev) tk ev r ≡ some (next r')
          → AllExpected cfg t evs r')

  pub handle_events-InRound :
      (responses : Format Response) (cfg : Config) (t : Turn Method Url) (evs : List (ℕ × Event))
      (r : Round Method Url)
      → InRound evs r
      → AllExpected cfg t evs r
      → Continues (InRound []) (handle_events lib requests responses cfg t evs r)
  unfolding handle_events AllExpected
  handle_events-InRound responses cfg t [] r h ex = h
  handle_events-InRound responses cfg t ((tk, ev) ∷ evs) r h (ex, all) =
      and_then-Continues (InRound evs) (InRound [])
        (handle_event lib requests cfg (t.io tk ev) tk ev r)
        (handle_events lib requests responses cfg t evs)
        (handle_event-InRound cfg (t.io tk ev) tk ev evs r h ex)
        (λ r' e h'. handle_events-InRound responses cfg t evs r' h' (all r' e))
