-- ===== src/Config/Tests.antt =====
-- An environment with two of the ten variables.
use casket.Base.{◌≡◌, refl, none, List, [], ◌∷◌, Bytes, codes, ok, eq_bytes, is_utf8, some}
use casket.Config.{Config, default, set_var, set_vars, parse_usize, parse_digits}
use casket.Config.Env.{set_vars-known_vars}

abbrev environment : List (Bytes × Bytes)
environment =
    (codes "PATH", codes "/bin")
    ∷ (codes "CASKET_NUM_WORKERS", codes "0")
    ∷ (codes "CASKET_WORKERS", codes "none")
    ∷ (codes "CASKET_MAX_REQUESTS", codes "+12")
    ∷ []

abbrev initial : Config
unfolding default
initial = default none

-- The message for a bad value says that it must be a positive integer; 0 is taken.
sets :
    set_vars initial environment ≡ some (ok (record initial { num_workers = 0; max_requests = 12 }))
unfolding initial set_vars set_var is_utf8 eq_bytes parse_usize parse_digits
sets = refl

set_vars-known_vars_example :
    set_vars initial environment
    ≡ set_vars initial
        ((codes "CASKET_NUM_WORKERS", codes "0") ∷ (codes "CASKET_MAX_REQUESTS", codes "+12") ∷ [])
unfolding eq_bytes is_utf8
set_vars-known_vars_example =
    set_vars-known_vars environment initial (refl, (refl, (refl, (refl, tt))))

-- A variable that Casket does not know, and that is not text.
panics : set_vars initial ((codes "LOGO", 255 ∷ []) ∷ environment) ≡ none
unfolding set_vars is_utf8
panics = refl
