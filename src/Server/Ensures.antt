-- ===== src/Server/Ensures.antt =====
-- What holds of the server after a step, if the step does not fail.
use casket.Base.{List, [], ◌∷◌}
use casket.Server.{Server, Outcome, next, stopped, failed, panicked, ◌>>=◌, each}

abbrev pub Ensures : (Server → Type 0) → Outcome → Type 0
Ensures P (next s) = P s
Ensures P (stopped s) = P s
Ensures P (failed e) = Unit
Ensures P panicked = Unit

module _ {P : Server → Type 0} where
  pub >>=-Ensures :
      (o : Outcome) (f : Server → Outcome)
      → Ensures P o
      → ((s : Server) → P s → Ensures P (f s))
      → Ensures P (o >>= f)
  >>=-Ensures (next s) f h step = step s h
  >>=-Ensures (stopped s) f h step = h
  >>=-Ensures (failed e) f h step = h
  >>=-Ensures panicked f h step = h

  pub each-Ensures :
      {A : Type 0} (f : A → Server → Outcome) (xs : List A) (s : Server)
      → ((x : A) (s : Server) → P s → Ensures P (f x s))
      → P s
      → Ensures P (each f xs s)
  each-Ensures f [] s step h = h
  each-Ensures f (x ∷ xs) s step h =
      >>=-Ensures (f x s) (each f xs) (step x s h) (λ s' h'. each-Ensures f xs s' step h')
