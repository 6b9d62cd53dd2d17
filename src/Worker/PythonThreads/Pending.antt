-- ===== src/Worker/PythonThreads/Pending.antt =====
-- What becomes of the responses of the Python threads.
use casket.Base.{
  ℕ, ◌-◌, ◌≤◌, ◌<◌, ◌≡◌, ◌≢◌, refl, sym, ap, subst, ◌∙◌, inl, inr, Bool-cases, true, false, List,
  [], ◌∷◌, ◌++◌, ok, All, length, if◌then◌else◌, arith, sub_usize, sub_usize_lem, usize_mod,
}
use casket.Http.{HttpResponse}
use casket.Worker.Actions.{ActionResult, server_new_response}
use casket.Worker.PythonThreads.{PythonThreads, has_token, remove_token, take_response, take_each}

module _ {A : Type 0} where
  -- No token comes twice.
  abbrev pub IsDistinct : List (ℕ × A) → Type 0
  IsDistinct [] = Unit
  IsDistinct (r ∷ rs) = All (λ s. s.0 ≢ r.0) rs × IsDistinct rs

has_token-remove :
    (j k : ℕ) (ts : List ℕ) → j ≢ k → has_token j (remove_token k ts) ≡ has_token j ts
has_token-remove j k [] h = refl
has_token-remove j k (t ∷ ts) h = ground (arith, has_token-remove j k ts)

module _ {Method Url : Type 0} where
  -- The responses to the requests that have not timed out.
  abbrev pub forward : List ℕ → List (ℕ × HttpResponse Method Url) → List (ActionResult Method Url)
  forward timed_out [] = []
  forward timed_out ((tk, resp) ∷ rs) =
      let rest = forward timed_out rs in
      if has_token tk timed_out then rest else ok (server_new_response tk resp) ∷ rest

  forward-remove :
      (k : ℕ) (ts : List ℕ) (rs : List (ℕ × HttpResponse Method Url))
      → All (λ s. s.0 ≢ k) rs
      → forward (remove_token k ts) rs ≡ forward ts rs
  forward-remove k ts [] h = refl
  forward-remove k ts (r ∷ rs) (h, hs) =
      ground (arith, has_token-remove r.0 k ts h, forward-remove k ts rs hs)

  take_response_late :
      (r : ℕ × HttpResponse Method Url) (p : PythonThreads Method Url)
      → has_token r.0 p.timed_out_reqs ≡ true
      → take_response r p ≡ (
        record p {
          timed_out_reqs = remove_token r.0 p.timed_out_reqs;
          num_pending_reqs = sub_usize p.num_pending_reqs 1;
        },
        [],
      )
  unfolding take_response
  take_response_late r p h = ground arith

  take_response_live :
      (r : ℕ × HttpResponse Method Url) (p : PythonThreads Method Url)
      → has_token r.0 p.timed_out_reqs ≡ false
      → take_response r p ≡ (
        record p { num_pending_reqs = sub_usize p.num_pending_reqs 1 },
        ok (server_new_response r.0 r.1) ∷ [],
      )
  unfolding take_response
  take_response_live r p h = ground arith

  forward_late :
      (r : ℕ × HttpResponse Method Url) (ts : List ℕ) (rs : List (ℕ × HttpResponse Method Url))
      → has_token r.0 ts ≡ true
      → forward ts (r ∷ rs) ≡ forward ts rs
  forward_late r ts rs h = ground arith

  forward_live :
      (r : ℕ × HttpResponse Method Url) (ts : List ℕ) (rs : List (ℕ × HttpResponse Method Url))
      → has_token r.0 ts ≡ false
      → forward ts (r ∷ rs) ≡ ok (server_new_response r.0 r.1) ∷ forward ts rs
  forward_live r ts rs h = ground arith

  -- What the theorem below says, where the first response has led to the state and the results `q`.
  abbrev Forwards :
      List (ℕ × HttpResponse Method Url)
      → List (ActionResult Method Url)
      → ℕ
      → PythonThreads Method Url
      → PythonThreads Method Url × List (ActionResult Method Url)
      → Type 0
  Forwards rs results pending p q =
      let (p', rest) = take_each rs q.0 in
      (q.1 ++ rest ≡ results) × (p'.num_pending_reqs ≡ pending) × (p'.queued_reqs ≡ p.queued_reqs)

  -- Of the responses that have come, no two for one request and no more than there are pending,
  -- those whose request has timed out are dropped and the others are handed on in order; the
  -- pending requests are as many fewer, with no wrap, and the requests in the queue are left.
  pub take_each-Forwards :
      (rs : List (ℕ × HttpResponse Method Url)) (p : PythonThreads Method Url)
      → IsDistinct rs
      → length rs ≤ p.num_pending_reqs
      → p.num_pending_reqs < usize_mod
      → let (p', results) = take_each rs p in
        (results ≡ forward p.timed_out_reqs rs)
        × (p'.num_pending_reqs ≡ p.num_pending_reqs - length rs)
        × (p'.queued_reqs ≡ p.queued_reqs)
  unfolding take_each
  take_each-Forwards [] p d h b = (refl, omega arith, refl)
  take_each-Forwards (r ∷ rs) p (d, ds) h b =
      let one : sub_usize p.num_pending_reqs 1 ≡ p.num_pending_reqs - 1 =
        sub_usize_lem p.num_pending_reqs 1 (omega arith) b in
      let goal =
        Forwards rs (forward p.timed_out_reqs (r ∷ rs)) (p.num_pending_reqs - length (r ∷ rs)) p in
      elim (Bool-cases (has_token r.0 p.timed_out_reqs)) [
        | inl e ↦
            let p' : PythonThreads Method Url = record p {
              timed_out_reqs = remove_token r.0 p.timed_out_reqs;
              num_pending_reqs = sub_usize p.num_pending_reqs 1;
            } in
            let (results, count, queued) =
              take_each-Forwards rs p' ds (omega arith) (omega arith) in
            subst goal (sym (take_response_late r p e)) (
              results
                  ∙ forward-remove r.0 p.timed_out_reqs rs d
                  ∙ sym (forward_late r p.timed_out_reqs rs e),
              omega (arith, count, one),
              queued,
            )
        | inr e ↦
            let p' : PythonThreads Method Url = record p {
              num_pending_reqs = sub_usize p.num_pending_reqs 1;
            } in
            let (results, count, queued) =
              take_each-Forwards rs p' ds (omega arith) (omega arith) in
            subst goal (sym (take_response_live r p e)) (
              ap (◌∷◌ (ok (server_new_response r.0 r.1))) results
                  ∙ sym (forward_live r p.timed_out_reqs rs e),
              omega (arith, count, one),
              queued,
            )
      ]
