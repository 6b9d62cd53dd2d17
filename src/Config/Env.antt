-- ===== src/Config/Env.antt =====
-- Which variables of the environment count.
use casket.Base.{
  ◌≡◌, refl, inl, inr, Bool-cases, Result-cases, All, Bool, true, false, ◌||◌, List, [], ◌∷◌, Bytes,
  codes, ok, eq_bytes, if◌then◌else◌, arith,
}
use casket.Config.{Config, set_var, set_vars, is_unicode}

abbrev pub names : List Bytes
names =
    codes "CASKET_BIND_ADDR"
    ∷ codes "CASKET_NUM_WORKERS"
    ∷ codes "CASKET_NUM_THREADS_PER_WORKER"
    ∷ codes "CASKET_MAX_CONNECTIONS"
    ∷ codes "CASKET_MAX_REQUESTS"
    ∷ codes "CASKET_RETURN_STACKTRACE_IN_BODY"
    ∷ codes "CASKET_LOG_HTTP_RESPONSE"
    ∷ codes "CASKET_CTRLC_WAIT_TIME"
    ∷ codes "CASKET_REQUEST_READ_TIMEOUT"
    ∷ codes "CASKET_PYTHON_CODE_GATEWAY_TIMEOUT"
    ∷ []

abbrev pub is_known : List Bytes → Bytes → Bool
is_known [] key = false
is_known (name ∷ rest) key = eq_bytes key name || is_known rest key

-- The variables with one of the ten names.
abbrev pub known_vars : List (Bytes × Bytes) → List (Bytes × Bytes)
known_vars [] = []
known_vars (var ∷ vars) = if is_known names var.0 then var ∷ known_vars vars else known_vars vars

set_var_foreign :
    (c : Config) (key value : Bytes) → is_known names key ≡ false → set_var c (key, value) ≡ ok c
unfolding set_var
set_var_foreign c key value h = ground arith

known_step :
    (var : Bytes × Bytes) (vars : List (Bytes × Bytes))
    → is_known names var.0 ≡ true
    → known_vars (var ∷ vars) ≡ var ∷ known_vars vars
known_step var vars h = rw h refl

foreign_step :
    (var : Bytes × Bytes) (vars : List (Bytes × Bytes))
    → is_known names var.0 ≡ false
    → known_vars (var ∷ vars) ≡ known_vars vars
foreign_step var vars h = rw h refl

-- All names and values are text.
abbrev pub AreUnicode : List (Bytes × Bytes) → Type 0
AreUnicode = All (λ var. is_unicode var ≡ true)

-- In an environment of text, the ten names alone count: every other variable may be left out, and
-- neither changes a setting nor makes the start fail.
pub set_vars-known_vars :
    (vars : List (Bytes × Bytes)) (c : Config)
    → AreUnicode vars
    → set_vars c vars ≡ set_vars c (known_vars vars)
unfolding set_vars
set_vars-known_vars [] c h = refl
set_vars-known_vars (var ∷ vars) c (text, texts) = elim (Bool-cases (is_known names var.0)) [
  | inl e ↦
      rw (known_step var vars e, set_vars)
        (rw text (elim (Result-cases (set_var c var)) [
          | inl (c', set) ↦ rw set (set_vars-known_vars vars c' texts)
          | inr (x, failed) ↦ rw failed refl
        ]))
  | inr e ↦
      rw (foreign_step var vars e, set_vars)
        (rw text (rw (set_var_foreign c var.0 var.1 e) (set_vars-known_vars vars c texts)))
]
