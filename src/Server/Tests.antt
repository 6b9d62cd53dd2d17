-- ===== src/Server/Tests.antt =====
-- The server's loop at concrete inputs: two workers, and the streams 5, 6 and 7.
use casket.Base.{ℕ, ◌≡◌, refl, Bool, true, false, some, none, List, [], ◌∷◌, arith, ok, length}
use casket.Base.Map.{lookup}
use casket.Config.{Config, default}
use casket.Errors.{unknown_token}
use casket.Msgs.Example.{request_format, response_format}
use casket.Server.Capacity.{run_turn-max_conns, Holds}
use casket.Server.Ensures.{Ensures}
use casket.Server.Shutdown.{run_turn-Drains, handle_events-unknown_token, Drains}
use casket.Server.Streams.{get_mut, new_stream}
use casket.Server.Tokens.{keep_stream-collides, token_of}
use casket.Server.{
  Server, Event, Turn, next, failed, run_turn, handle_events, keep_stream, start, server_token,
}

abbrev cfg : Config
unfolding default
cfg = record (default none) { max_conns = 2 }

abbrev pub accepts : ℕ → Event
accepts stream = record {
  token = server_token;
  readable = true;
  writable = false;
  accepted = some stream;
  read = ok [];
  room = 0;
  written = ok 0;
}

abbrev pub reads : ℕ → Event
reads token = record {
  token = token;
  readable = true;
  writable = false;
  accepted = none;
  read = ok [];
  room = 0;
  written = ok 0;
}

abbrev pub turn_with : Bool → List Event → Turn
turn_with running events = record {
  elapsed = some 0;
  close_now = false;
  unix_registry = λ _ _. ok tt;
  register = λ _. ok tt;
  deregister = λ _. ok tt;
  poll_is_err = false;
  running = running;
  now = 0;
  events = events;
}

-- Stream 5 is being read from, stream 6 is with a worker.
abbrev busy : Server
unfolding start
busy = record (start 2) {
  reading_streams = (16777216, 5) ∷ [];
  processing_streams = (33554432, 6) ∷ [];
}

run_turn-max_conns_example :
    Holds 2 (run_turn request_format response_format cfg (turn_with true (accepts 7 ∷ [])) busy)
unfolding busy cfg
run_turn-max_conns_example =
    run_turn-max_conns request_format response_format cfg (turn_with true (accepts 7 ∷ [])) busy
      (omega arith)

abbrev draining : Server
draining = record busy { reading_streams = []; run_shutdown = true; ctrlc_instant = some 0 }

run_turn-Drains_example :
    Ensures
      (Drains 1)
      (run_turn request_format response_format cfg (turn_with false (reads 1 ∷ [])) draining)
unfolding busy
run_turn-Drains_example =
    run_turn-Drains request_format response_format cfg (turn_with false (reads 1 ∷ [])) draining
      refl refl (refl, tt)

-- Stream 5 sends its request while the signal comes.
handle_events-unknown_token_example :
    handle_events request_format response_format cfg (turn_with false (reads 16777216 ∷ [])) busy
    ≡ failed unknown_token
unfolding busy get_mut new_stream
handle_events-unknown_token_example =
    handle_events-unknown_token request_format response_format cfg
      (turn_with false (reads 16777216 ∷ [])) busy (reads 16777216) [] refl refl refl
      (λ e. omega arith) refl

-- Stream 5 is at its last request before the tokens of stream 6.
abbrev worn : Server
worn = record busy {
  reading_streams = (33554432, 6) ∷ [];
  processing_streams = (token_of 1 131071, 5) ∷ [];
}

keep_stream-collides_example :
    (s' : Server) × (keep_stream (turn_with true []) (token_of 1 131071) worn ≡ next s')
    × (lookup (token_of 2 0) s'.reading_streams ≡ some 5)
    × (length s'.reading_streams ≡ 1)
    × (s'.shut ≡ [])
unfolding busy
keep_stream-collides_example =
    keep_stream-collides (turn_with true []) worn 1 5 6 (omega arith) refl refl refl refl
