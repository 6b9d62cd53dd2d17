-- ===== src/Worker/Events.antt =====
-- src/worker/events.rs.
use casket.Base.{ℕ}

pub data Event : Type 0 where
  ctrl_c unix_stream_read unix_stream_write : Event
  new_stream_fd : ℕ → Event
  server_stream_read queued_requests poll_python_responses server_stream_write : Event
  request_read_timeout casket_response_write python_code_timeout : Event

pub data Timeout : Type 0 where
  request_read python_code : Timeout
