-- ===== src/Worker/RoundTests.antt =====
-- A run of the worker: the server sends a stream, the worker takes it up, and its client hangs up.
use casket.Base.{Bytes, ℕ, refl, true, false, Option, none, some, List, ◌≡◌, [], ◌∷◌, ok, arith}
use casket.Base.Map.{Map}
use casket.Config.{Config, default}
use casket.Http.{HttpRequest}
use casket.Msgs.Example.{request_format, response_format}
use casket.Msgs.WorkerBuffer
use casket.Msgs.WorkerBuffer.{
  request_size, read_unix_stream, next_stream_fd, resp_stream_done_ok, has_data_to_send,
}
use casket.Msgs.Receive.{receive}
use casket.Worker.Loop.Placed.{Continues}
use casket.Worker.Loop.Turns.{IsSteady, FairTurns, ExpectedTurn, run_worker-IsSteady}
use casket.Worker.Loop.{
  Turn, Outcome, next, run_turns, start, run_worker, run_turn, unix_stream_token, pending_events,
  take_streams, handle_all, handle_events, handle_event, drain_results, handle_results,
  handle_result, handle_timeouts, reregister_unix,
}
use casket.Worker.Loop.EventSteps.{AllExpected}
use casket.Worker.{handle_action, add_time, event_server_stream_read}
use casket.Worker.Poller
use casket.Worker.Poller.{
  MioEvent, ready, expect_read, timer_event, tick, pop_due, take_events, take_read, take_write,
}
use casket.Worker.PythonThreads
use casket.Worker.Reader
use casket.Worker.Reader.{read_tcp_stream, read_header}
use casket.Worker.Reader.Tests.{library}
use casket.Workq.{Sender}

abbrev cfg : Config
cfg = default none

abbrev application : Sender (ℕ × HttpRequest Bytes Bytes)
application = record { pos = 0; senders = [] }

-- Nothing happens.
abbrev quiet : Turn Bytes Bytes
quiet = record {
  now = 0;
  poll = ready [];
  io = λ _ _. record {
    unix_read = ok [];
    unix_fds = [];
    unix_write = ok 0;
    tcp_read = ok [];
    tcp_write = ok 0;
    starts = record { messages = []; disconnected = false };
    responses = record { messages = []; disconnected = false };
    random = record { trace_id = []; span_id = [] };
  };
  registry = λ _. ok tt;
  timeout_registry = λ _. ok tt;
  deregister = λ _. ok tt;
  unix_registry = ok tt;
}

-- The server sends the stream 5, which it knows as descriptor 9.
abbrev hands_over : Turn Bytes Bytes
hands_over = record quiet {
  poll = ready (record { token = unix_stream_token; readable = true; writable = false } ∷ []);
  io = λ tk ev. record (quiet.io tk ev) {
    unix_read = ok (12 ∷ 5 ∷ 0 ∷ 0 ∷ 0 ∷ 0 ∷ 0 ∷ 0 ∷ 0 ∷ 9 ∷ 0 ∷ 0 ∷ 0 ∷ []);
    unix_fds = 8 ∷ [];
  };
}

-- Its client closes the connection.
abbrev hangs_up : Turn Bytes Bytes
hangs_up = record quiet {
  poll = ready (record { token = 5; readable = true; writable = false } ∷ []);
}

abbrev turns : List (Turn Bytes Bytes)
turns = hands_over ∷ quiet ∷ hangs_up ∷ []

turns-FairTurns :
    Continues
      (FairTurns library request_format response_format cfg turns)
      (start library request_format response_format application (ok tt) (ok tt))
unfolding start FairTurns ExpectedTurn run_turn WorkerBuffer.new Poller.new PythonThreads.new
    expect_read pending_events take_streams next_stream_fd tick pop_due take_events take_read
    take_write AllExpected handle_all handle_events handle_event read_unix_stream request_size
    receive drain_results handle_results handle_result handle_action add_time handle_timeouts
    reregister_unix has_data_to_send default timer_event event_server_stream_read read_tcp_stream
    read_header Reader.new resp_stream_done_ok
turns-FairTurns = (
  ((λ k. ground arith), (tt, λ _ _. tt)),
  (((λ k. ground arith), (tt, λ _ _. tt)), (((λ k. ground arith), (tt, λ _ _. tt)), tt)),
)

-- What the server awaits answers about, if the worker goes on.
abbrev awaits : Option (Outcome Bytes Bytes) → Option (Map ℕ)
awaits (some (next r)) = some r.worker.msg_buf.server_fds
awaits _ = none

-- The server has sent a stream and been answered.
turns_answered :
    awaits (run_worker library request_format response_format cfg application (ok tt) (ok tt) turns)
    ≡ some []
unfolding start run_worker run_turns run_turn WorkerBuffer.new Poller.new PythonThreads.new
    expect_read pending_events take_streams next_stream_fd tick pop_due take_events take_read
    take_write handle_all handle_events handle_event read_unix_stream request_size receive
    drain_results handle_results handle_result handle_action add_time handle_timeouts
    reregister_unix has_data_to_send default timer_event event_server_stream_read read_tcp_stream
    read_header Reader.new resp_stream_done_ok
turns_answered = refl

run_worker-IsSteady_example :
    Continues IsSteady
      (run_worker library request_format response_format cfg application (ok tt) (ok tt) turns)
run_worker-IsSteady_example =
    run_worker-IsSteady library request_format response_format cfg application (ok tt) (ok tt) turns
      turns-FairTurns
