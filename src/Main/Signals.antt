-- ===== src/Main/Signals.antt =====
-- What the signals that have come make the server do.
use casket.Base.{
  ◌&&◌, is_empty, ℕ, zero, suc, ◌≤◌, ◌≡◌, refl, ap, inl, inr, Bool-cases, Option-cases, true, false,
  leb, arith, ◌==◌, subst,
}
use casket.Config.{Config}
use casket.Main.{Flags, initial_flags, on_sigint}
use casket.Msgs.Wire.{Request, Response, Format}
use casket.Server.Ensures.{Ensures, each-Ensures}
use casket.Server.{
  Server, Event, Turn, Outcome, next, stopped, failed, panicked, ◌>>=◌, accept_stream, hand_over,
  serve_unix_stream, serve_known, serve_client, serve_listener, handle_event, handle_events,
  check_exit, check_running, take_kept, take_closed, run_turn, ctrlc_expired,
}

-- The flags behind `n` signals.
unfoldable pub signals : ℕ → Flags
unfolding on_sigint
signals zero = initial_flags
signals (suc n) = on_sigint (signals n)

signals_lem : (n : ℕ) → ((signals n).running ≡ (n == 0)) × ((signals n).close_now ≡ leb 2 n)
unfolding signals on_sigint
signals_lem zero = (refl, refl)
signals_lem (suc zero) = (refl, refl)
signals_lem (suc (suc n)) =
    let (running, close_now) = signals_lem (suc n) in ground (arith, running, close_now)

check_exit_close_now :
    (cfg : Config) (t : Turn) (s : Server)
    → t.close_now ≡ true
    → (s' : Server) × (check_exit cfg t s ≡ stopped s')
unfolding check_exit
check_exit_close_now cfg t s h =
    elim (Bool-cases (s.run_shutdown && is_empty s.processing_streams)) [
      | inl e ↦ (s, rw e refl)
      | inr e ↦ elim (Option-cases (ctrlc_expired cfg t s)) [
        | inl e' ↦ (s, rw (e, e', h) refl)
        | inr (s', e') ↦ (s', rw (e, e') refl)
      ]
    ]

abbrev IsShutting : Server → Type 0
IsShutting s = s.run_shutdown ≡ true

check_running-IsShutting :
    (t : Turn) (s : Server) → t.running ≡ false → IsShutting (check_running t s)
unfolding check_running
check_running-IsShutting t s h = ground (arith, h)

accept_stream-IsShutting :
    (cfg : Config) (t : Turn) (stream : ℕ) (s : Server)
    → IsShutting s
    → Ensures IsShutting (accept_stream cfg t stream s)
unfolding accept_stream
accept_stream-IsShutting cfg t stream s h = ground arith

hand_over-IsShutting :
    (t : Turn) (tk stream : ℕ) (s : Server)
    → IsShutting s
    → Ensures IsShutting (hand_over t tk stream s)
unfolding hand_over
hand_over-IsShutting t tk stream s h = ground arith

-- What holds behind the last of two steps, if the loop goes on.
abbrev OnNext : (Server → Type 0) → Outcome → Type 0
OnNext P (next s) = P s
OnNext P (stopped s) = Unit
OnNext P (failed e) = Unit
OnNext P panicked = Unit

Ensures-OnNext : (P : Server → Type 0) (o : Outcome) → Ensures P o → OnNext P o
Ensures-OnNext P (next s) h = h
Ensures-OnNext P (stopped s) h = tt
Ensures-OnNext P (failed e) h = tt
Ensures-OnNext P panicked h = tt

>>=-OnNext :
    (P : Server → Type 0) (o : Outcome) (f : Server → Outcome)
    → ((s : Server) → Ensures P (f s))
    → OnNext P (o >>= f)
>>=-OnNext P (next s) f h = Ensures-OnNext P (f s) (h s)
>>=-OnNext P (stopped s) f h = tt
>>=-OnNext P (failed e) f h = tt
>>=-OnNext P panicked f h = tt

module _ (requests : Format Request) (responses : Format Response) where
  serve_known-IsShutting :
      (ev : Event) (s : Server)
      → IsShutting s
      → Ensures IsShutting (serve_known requests responses ev s)
  unfolding serve_known serve_unix_stream
  serve_known-IsShutting ev s h = ground arith

  handle_event-IsShutting :
      (cfg : Config) (t : Turn) (ev : Event) (s : Server)
      → IsShutting s
      → Ensures IsShutting (handle_event requests responses cfg t ev s)
  unfolding handle_event serve_client serve_listener
  handle_event-IsShutting cfg t ev s h = ground (
    arith,
    serve_known-IsShutting ev s h,
    λ (stream : ℕ). accept_stream-IsShutting cfg t stream s h,
    λ (stream : ℕ). hand_over-IsShutting t ev.token stream s h,
  )

  handle_events-IsShutting :
      (cfg : Config) (t : Turn) (s : Server)
      → t.running ≡ false
      → Ensures IsShutting (handle_events requests responses cfg t s)
  unfolding handle_events
  handle_events-IsShutting cfg t s h =
      each-Ensures {P = IsShutting} (handle_event requests responses cfg t) t.events
        (check_running t s) (handle_event-IsShutting cfg t) (check_running-IsShutting t s h)

  -- One flag is read before the poll of a round, behind `m` signals, the other after it, behind `n`.
  -- Behind two signals and more, the round is the last, whatever the server is doing. Behind one, a
  -- round that is not the last leaves the server shutting down.
  pub run_turn-signals :
      (cfg : Config) (t : Turn) (s : Server) (m n : ℕ)
      → t.close_now ≡ (signals m).close_now
      → t.running ≡ (signals n).running
      → (2 ≤ m → (s' : Server) × (run_turn requests responses cfg t s ≡ stopped s'))
        × (1 ≤ n
            → (s' : Server) → run_turn requests responses cfg t s ≡ next s'
            → s'.run_shutdown ≡ true)
  unfolding run_turn
  run_turn-signals cfg t s m n close_now running = (
    λ two.
        let closes : t.close_now ≡ true = ground (arith, close_now, signals_lem m) in
        let (s', e) = check_exit_close_now cfg t s closes in
        (
          s',
          ap (λ o. o >>= take_kept t >>= take_closed >>= handle_events requests responses cfg t) e,
        ),
    λ one s' e.
        let down : t.running ≡ false = ground (arith, running, signals_lem n) in
        subst (OnNext IsShutting) e (
          >>=-OnNext IsShutting (check_exit cfg t s >>= take_kept t >>= take_closed)
            (handle_events requests responses cfg t)
            (λ s₁. handle_events-IsShutting cfg t s₁ down)),
  )
