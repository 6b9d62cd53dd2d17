-- ===== src/Server/Streams/Interest.antt =====
-- `UnixStream::reregister` against what mio's registry allows.
use casket.Base.{
  ◌≤◌, ◌≡◌, refl, ◌∙◌, ap, Bool, true, false, Option, none, some, List, [], ◌∷◌, arith, Bytes,
  Result, ok, err, length, inl, inr, ◌⊎◌,
}
use casket.Server.Streams.{
  StreamInterest, neither, read, write, read_write, from_rw, UnixStream, Call, register, reregister,
  deregister, run_calls, guarded_calls, poll_read, poll_write, settle, reregister_stream,
}

-- mio's rules: a source is registered once, and reregistered or deregistered only while it is.
abbrev pub follow : StreamInterest → List Call → Option StreamInterest
follow i [] = some i
follow neither (register j ∷ calls) = follow j calls
follow neither (reregister j ∷ calls) = none
follow neither (deregister ∷ calls) = none
follow read (register j ∷ calls) = none
follow read (reregister j ∷ calls) = follow j calls
follow read (deregister ∷ calls) = follow neither calls
follow write (register j ∷ calls) = none
follow write (reregister j ∷ calls) = follow j calls
follow write (deregister ∷ calls) = follow neither calls
follow read_write (register j ∷ calls) = none
follow read_write (reregister j ∷ calls) = follow j calls
follow read_write (deregister ∷ calls) = follow neither calls

guarded_calls-follow :
    (answer : Call → Result Bytes (Unit {0})) (i : StreamInterest) (r w : Bool)
    → let (calls, result) = run_calls answer (guarded_calls i r w) in
      (length calls ≤ 1) × (follow i calls ≡ some (from_rw r w))
unfolding from_rw
guarded_calls-follow answer neither true true = ground arith
guarded_calls-follow answer neither true false = ground arith
guarded_calls-follow answer neither false true = ground arith
guarded_calls-follow answer neither false false = ground arith
guarded_calls-follow answer read true true = ground arith
guarded_calls-follow answer read true false = ground arith
guarded_calls-follow answer read false true = ground arith
guarded_calls-follow answer read false false = ground arith
guarded_calls-follow answer write true true = ground arith
guarded_calls-follow answer write true false = ground arith
guarded_calls-follow answer write false true = ground arith
guarded_calls-follow answer write false false = ground arith
guarded_calls-follow answer read_write true true = ground arith
guarded_calls-follow answer read_write true false = ground arith
guarded_calls-follow answer read_write false true = ground arith
guarded_calls-follow answer read_write false false = ground arith

pub settle_lem :
    (s : UnixStream) (c : List Call × Result Bytes (Unit {0}))
    → let (s', calls, r) = settle s c in
      (calls ≡ c.0)
      × ((r ≡ ok tt) × (s' ≡ record s { interest = from_rw (poll_read s) (poll_write s) })
          ⊎ ((e : Bytes) × (r ≡ err e) × (s' ≡ s)))
unfolding settle
settle_lem s (calls, ok _) = (refl, inl (refl, refl))
settle_lem s (calls, err e) = (refl, inr (e, refl, refl))

-- From any recorded interest, `reregister` makes at most one call, which mio's rules allow and
-- which takes the registration to exactly what the socket needs: to be polled for reading while
-- requests are unanswered, for writing while there is something to send. If the registry accepts
-- it, the recorded interest is that; if it refuses, the stream is left as it was.
pub reregister-tracks :
    (answer : Call → Result Bytes (Unit {0})) (s : UnixStream)
    → let (s', calls, r) = reregister_stream answer s in
      (length calls ≤ 1)
      × (follow s.interest calls ≡ some (from_rw (poll_read s) (poll_write s)))
      × ((r ≡ ok tt) × (s' ≡ record s { interest = from_rw (poll_read s) (poll_write s) })
          ⊎ ((e : Bytes) × (r ≡ err e) × (s' ≡ s)))
unfolding reregister_stream
reregister-tracks answer s =
    let c = run_calls answer (guarded_calls s.interest (poll_read s) (poll_write s)) in
    let (one, allowed) = guarded_calls-follow answer s.interest (poll_read s) (poll_write s) in
    let (same, settled) = settle_lem s c in
    (rw same one, ap (follow s.interest) same ∙ allowed, settled)
