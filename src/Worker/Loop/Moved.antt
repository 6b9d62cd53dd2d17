-- ===== src/Worker/Loop/Moved.antt =====
-- The streams that the results of a round bring to the worker.
use casket.Base.{ℕ, ◌+◌, ◌≤◌, ◌≡◌, List, [], ◌∷◌, ok, err, arith}
use casket.Worker.Actions.{
  ActionResult, new_server_request, server_continue_read, server_read_done, server_stream_eof,
  server_new_response, server_continue_write, server_done_write, server_casket_response_new,
  server_casket_response_continue, server_casket_response_done, server_python_code_timeout_new,
}
use casket.Worker.Loop.Flow.{one, in_map, places, awaited, AreMaps}
use casket.Worker.{Worker}

module _ {Method Url : Type 0} where
  -- The stream that a result brings to the worker. A response of Python code finds it pending, and
  -- a start of Python code is about a timer alone.
  abbrev pub moved : ℕ → ActionResult Method Url → ℕ
  moved k (err e) = one e.token k
  moved k (ok (server_python_code_timeout_new tk st)) = 0
  moved k (ok (server_new_response tk resp)) = 0
  moved k (ok (new_server_request tk stream)) = one tk k
  moved k (ok (server_continue_read tk reader stream)) = one tk k
  moved k (ok (server_read_done tk req stream)) = one tk k
  moved k (ok (server_stream_eof tk stream)) = one tk k
  moved k (ok (server_continue_write tk writer stream)) = one tk k
  moved k (ok (server_done_write tk resp stream)) = one tk k
  moved k (ok (server_casket_response_new tk stream resp)) = one tk k
  moved k (ok (server_casket_response_continue tk stream resp)) = one tk k
  moved k (ok (server_casket_response_done tk stream resp)) = one tk k

  abbrev pub responds : ℕ → ActionResult Method Url → ℕ
  responds k (ok (server_new_response tk resp)) = one tk k
  responds k _ = 0

  abbrev pub sum : (ℕ → ActionResult Method Url → ℕ) → ℕ → List (ActionResult Method Url) → ℕ
  sum g k [] = 0
  sum g k (a ∷ rest) = g k a + sum g k rest

  -- Every stream about which the server awaits an answer is in one map, or one result brings it;
  -- no other is in any of them; and a response of Python code finds its stream pending.
  pub record Flows (w : Worker Method Url) (results : List (ActionResult Method Url)) : Type 0 where
    pub maps : AreMaps w
    pub balanced : (k : ℕ) → places k w + sum moved k results ≡ awaited k w
    pub expected : (k : ℕ) → sum responds k results ≤ in_map k w.server_pending_streams

  -- A result has been carried out.
  pub record Carries (a : ActionResult Method Url) (w w' : Worker Method Url) : Type 0 where
    pub maps : AreMaps w'
    pub conserved : (k : ℕ) → places k w' + awaited k w ≡ places k w + moved k a + awaited k w'
    pub pending_kept :
        (k : ℕ)
        → in_map k w.server_pending_streams ≤ in_map k w'.server_pending_streams + responds k a

  pub Carries-Flows :
      (a : ActionResult Method Url) (rest : List (ActionResult Method Url))
      (w w' : Worker Method Url)
      → Flows w (a ∷ rest)
      → Carries a w w'
      → Flows w' rest
  Carries-Flows a rest w w' h c = record {
    maps = c.maps;
    balanced = λ k. omega (arith, h.balanced k, c.conserved k);
    expected = λ k. omega (arith, h.expected k, c.pending_kept k);
  }
