-- ===== src/Server/RoundTests.antt =====
-- Three rounds of the server with one worker: a stream comes, sends its request, and is answered.
use casket.Base.{
  ℕ, add_usize, ◌≡◌, ◌≢◌, refl, sym, ◌∙◌, subst, none, arith, List, [], ◌∷◌, true, ok,
}
use casket.Config.{Config, default}
use casket.Msgs.Example.{request_format, response_format, response_format-IsResponseFormat}
use casket.Msgs.Wire.{Response, response_frame}
use casket.Server.Owed.{before_events}
use casket.Server.Streams.{UnixStream, get_mut, reregister_all, next_stream_tks}
use casket.Server.Streams
use casket.Msgs.ServerBuffer
use casket.Server.Answered.{AllAnswer, Answers, AreAsked, IsFresh, after}
use casket.Server.Heard.{Hears, Hears-Answers}
use casket.Server.Rounds.{TurnAnswers, AllTurnsAnswer, nothing, run_turns, run_turns-not_panicked}
use casket.Server.Tests.{accepts, reads, turn_with}
use casket.Server.{
  Server, Event, Turn, start, run_turn, panicked, next, handle_event, check_running,
}

abbrev answer : Response
answer = record { token = 16777216; fd = 5; keep_alive = true; error = none }

abbrev answered : Event
answered = record (reads 1) { read = ok (response_frame response_format answer) }

abbrev cfg : Config
cfg = default none

-- The server behind the first round.
abbrev accepted : Server
unfolding start
accepted = record (start 1) { client_stream_count = 33554432; reading_streams = (16777216, 5) ∷ [] }

abbrev socket : UnixStream
unfolding Streams.new_stream ServerBuffer.new
socket = record (Streams.new_stream 1) {
  msg_buffer = record ServerBuffer.new { to_send = (record { token = 16777216; fd = 5 }, 5) ∷ [] };
  num_reqs = 1;
}

-- The server behind the second round.
abbrev handed : Server
handed = record accepted {
  unix_streams = socket ∷ [];
  reading_streams = [];
  processing_streams = (16777216, 5) ∷ [];
}

-- The same, once the socket is polled.
abbrev polled : Server
polled = record handed { unix_streams = record socket { interest = Streams.read_write } ∷ [] }

abbrev round_1 : Turn
round_1 = turn_with true (accepts 5 ∷ [])

abbrev round_2 : Turn
round_2 = turn_with true (reads 16777216 ∷ [])

abbrev round_3 : Turn
round_3 = turn_with true (answered ∷ [])

before_1 : before_events cfg round_1 (start 1) ≡ next (start 1)
unfolding start default run_turn before_events reregister_all next_stream_tks Streams.drain_tks
    Streams.next_stream_tk ServerBuffer.next_stream_tk Streams.reregister_stream Streams.new_stream
    ServerBuffer.has_data_to_send ServerBuffer.new Streams.next_stream_close_tks
    Streams.drain_close_tks Streams.next_stream_close_tk ServerBuffer.next_stream_close_tk
    Streams.settle Streams.from_rw handle_event check_running add_usize accepted
before_1 = refl

event_1 :
    handle_event request_format response_format cfg round_1
      (accepts 5)
      (check_running round_1 (start 1))
    ≡ next accepted
unfolding start default run_turn before_events reregister_all next_stream_tks Streams.drain_tks
    Streams.next_stream_tk ServerBuffer.next_stream_tk Streams.reregister_stream Streams.new_stream
    ServerBuffer.has_data_to_send ServerBuffer.new Streams.next_stream_close_tks
    Streams.drain_close_tks Streams.next_stream_close_tk ServerBuffer.next_stream_close_tk
    Streams.settle Streams.from_rw handle_event check_running add_usize accepted
    Streams.msg_send_tcp_stream Streams.least_loaded Streams.send_to_stream
    ServerBuffer.req_tcp_stream_fd
event_1 = refl

before_2 : before_events cfg round_2 accepted ≡ next accepted
unfolding start default run_turn before_events reregister_all next_stream_tks Streams.drain_tks
    Streams.next_stream_tk ServerBuffer.next_stream_tk Streams.reregister_stream Streams.new_stream
    ServerBuffer.has_data_to_send ServerBuffer.new Streams.next_stream_close_tks
    Streams.drain_close_tks Streams.next_stream_close_tk ServerBuffer.next_stream_close_tk
    Streams.settle Streams.from_rw handle_event check_running add_usize accepted
before_2 = refl

event_2 :
    handle_event request_format response_format cfg round_2
      (reads 16777216)
      (check_running round_2 accepted)
    ≡ next handed
unfolding start default run_turn before_events reregister_all next_stream_tks Streams.drain_tks
    Streams.next_stream_tk ServerBuffer.next_stream_tk Streams.reregister_stream Streams.new_stream
    ServerBuffer.has_data_to_send ServerBuffer.new Streams.next_stream_close_tks
    Streams.drain_close_tks Streams.next_stream_close_tk ServerBuffer.next_stream_close_tk
    Streams.settle Streams.from_rw handle_event check_running add_usize accepted
    Streams.msg_send_tcp_stream Streams.least_loaded Streams.send_to_stream
    ServerBuffer.req_tcp_stream_fd
event_2 = refl

before_3 : before_events cfg round_3 handed ≡ next polled
unfolding start default run_turn before_events reregister_all next_stream_tks Streams.drain_tks
    Streams.next_stream_tk ServerBuffer.next_stream_tk Streams.reregister_stream Streams.new_stream
    ServerBuffer.has_data_to_send ServerBuffer.new Streams.next_stream_close_tks
    Streams.drain_close_tks Streams.next_stream_close_tk ServerBuffer.next_stream_close_tk
    Streams.settle Streams.from_rw handle_event check_running add_usize accepted
before_3 = refl

abbrev turns : List Turn
turns = round_1 ∷ round_2 ∷ round_3 ∷ turn_with true [] ∷ []

next_inj : (s s' : Server) → next s ≡ next s' → s ≡ s'
next_inj s s' e = cc

-- A round with one event.
turn_answers :
    (ev : Event) (Then : (ℕ → ℕ) → Server → Type 0) (asked : ℕ → ℕ) (s s₁ s₂ : Server)
    → let t = turn_with true (ev ∷ []) in
      before_events cfg t s ≡ next s₁
      → handle_event request_format response_format cfg t ev (check_running t s₁) ≡ next s₂
      → Answers response_format asked ev (check_running t s₁)
      → IsFresh asked ev (check_running t s₁)
      → Then (after asked (check_running t s₁) s₂) s₂
      → TurnAnswers request_format response_format cfg t Then asked s
unfolding AllAnswer
turn_answers ev Then asked s s₁ s₂ before event answers fresh rest =
    let t = turn_with true (ev ∷ []) in
    λ s' e.
      subst
        (λ s'.
          AllAnswer request_format response_format cfg t Then asked (ev ∷ []) (check_running t s'))
        (next_inj s₁ s' (sym before ∙ e))
        (
          (answers, fresh),
          λ s'' e'.
              subst (λ s''. Then (after asked (check_running t s₁) s'') s'')
                (next_inj s₂ s'' (sym event ∙ e')) rest,
        )

-- What has been asked about behind the first two rounds.
abbrev asked_1 : ℕ → ℕ
asked_1 = after nothing (check_running round_1 (start 1)) accepted

abbrev asked_2 : ℕ → ℕ
asked_2 = after asked_1 (check_running round_2 accepted) handed

answer_heard :
    Hears response_format-IsResponseFormat
      (record socket { interest = Streams.read_write })
      (answer ∷ [])
      (response_frame response_format answer)
      []
unfolding socket response_frame
answer_heard = record {
  valid = record { held = omega arith; roomy = omega arith };
  sendable = (record { token = omega arith; fd = omega arith; text = tt }, tt);
  room = omega arith;
  arrives = refl;
}

answer_asked : AreAsked asked_2 (answer ∷ [])
unfolding accepted start check_running socket Streams.new_stream ServerBuffer.new
answer_asked = λ k. ground arith

answers_3 :
    TurnAnswers request_format response_format cfg round_3
      (AllTurnsAnswer request_format response_format cfg (turn_with true [] ∷ []))
      asked_2
      handed
unfolding AllAnswer AllTurnsAnswer check_running get_mut socket
answers_3 = λ s e.
    subst
      (λ s.
        AllAnswer request_format response_format cfg round_3
          (AllTurnsAnswer request_format response_format cfg (turn_with true [] ∷ [])) asked_2
          (answered ∷ []) (check_running round_3 s))
      (next_inj polled s (sym before_3 ∙ e))
      (
        (
          Hears-Answers response_format-IsResponseFormat asked_2 polled answered
              (record socket { interest = Streams.read_write }) (answer ∷ [])
              (response_frame response_format answer) [] refl refl refl answer_heard answer_asked,
          λ stream found. cc,
        ),
        λ _ _ _ _. tt,
      )

answers_2 :
    TurnAnswers request_format response_format cfg round_2
      (AllTurnsAnswer request_format response_format cfg (round_3 ∷ turn_with true [] ∷ []))
      asked_1
      accepted
unfolding AllTurnsAnswer accepted start check_running get_mut Streams.new_stream ServerBuffer.new
answers_2 =
    turn_answers (reads 16777216)
      (AllTurnsAnswer request_format response_format cfg (round_3 ∷ turn_with true [] ∷ [])) asked_1
      accepted accepted handed before_2 event_2 (λ u found. cc) (λ stream found. refl) answers_3

all_turns_answer : AllTurnsAnswer request_format response_format cfg turns nothing (start 1)
unfolding AllTurnsAnswer start check_running get_mut Streams.new_stream
all_turns_answer =
    turn_answers (accepts 5)
      (AllTurnsAnswer request_format response_format cfg
        (round_2 ∷ round_3 ∷ turn_with true [] ∷ []))
      nothing (start 1) (start 1) accepted before_1 event_1 (λ u found. cc) (λ stream found. cc)
      answers_2

run_turns-not_panicked_example :
    run_turns request_format response_format cfg turns (start 1) ≢ panicked
run_turns-not_panicked_example =
    run_turns-not_panicked request_format response_format cfg 1 turns (omega arith) all_turns_answer
