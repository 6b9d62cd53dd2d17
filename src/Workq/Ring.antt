-- ===== src/Workq/Ring.antt =====
-- The senders in the order in which `send` tries them.
use casket.Base.{
  ℕ, zero, suc, ◌≤◌, ◌<◌, ◌≡◌, refl, sym, ap, true, false, some, List, [], ◌∷◌, ◌++◌, append-nil,
  arith, if◌then◌else◌, length, length-append, length-take, length-drop, append_assoc, get_elem?,
  set, take, drop, take-all, drop-all,
}
use casket.Workq.{Channel, remove_at}

module _ {T : Type 0} where
  abbrev pub ring : ℕ → List (Channel T) → List (Channel T)
  ring pos cs = drop pos cs ++ take pos cs

  -- The live senders from the first on.
  abbrev pub skip_dead : List (Channel T) → List (Channel T)
  skip_dead [] = []
  skip_dead (c ∷ cs) = if c.alive then c ∷ cs else skip_dead cs

  pub get_elem?_lt :
      (cs : List (Channel T)) (pos : ℕ)
      → pos < length cs
      → (c : Channel T) × (get_elem? cs pos ≡ some c)
  get_elem?_lt [] pos h = absurd (omega arith)
  get_elem?_lt (c ∷ cs) zero h = (c, refl)
  get_elem?_lt (c ∷ cs) (suc pos) h = get_elem?_lt cs pos (omega arith)

  pub drop_at :
      (cs : List (Channel T)) (pos : ℕ) (c : Channel T)
      → get_elem? cs pos ≡ some c
      → drop pos cs ≡ c ∷ drop (suc pos) cs
  drop_at [] pos c e = cc
  drop_at (x ∷ cs) zero c e = cc
  drop_at (x ∷ cs) (suc pos) c e = drop_at cs pos c e

  pub take-remove_at : (cs : List (Channel T)) (pos : ℕ) → take pos (remove_at cs pos) ≡ take pos cs
  take-remove_at [] pos = refl
  take-remove_at (x ∷ cs) zero = refl
  take-remove_at (x ∷ cs) (suc pos) = ap (◌∷◌ x) (take-remove_at cs pos)

  pub drop-remove_at :
      (cs : List (Channel T)) (pos : ℕ) → drop pos (remove_at cs pos) ≡ drop (suc pos) cs
  drop-remove_at [] zero = refl
  drop-remove_at [] (suc pos) = refl
  drop-remove_at (x ∷ cs) zero = refl
  drop-remove_at (x ∷ cs) (suc pos) = drop-remove_at cs pos

  pub length-remove_at :
      (cs : List (Channel T)) (pos : ℕ)
      → pos < length cs
      → suc (length (remove_at cs pos)) ≡ length cs
  length-remove_at [] pos h = absurd (omega arith)
  length-remove_at (x ∷ cs) zero h = refl
  length-remove_at (x ∷ cs) (suc pos) h = ap suc (length-remove_at cs pos (omega arith))

  pub take-set_self :
      (cs : List (Channel T)) (pos : ℕ) (c : Channel T) → take pos (set cs pos c) ≡ take pos cs
  take-set_self [] pos c = refl
  take-set_self (x ∷ cs) zero c = refl
  take-set_self (x ∷ cs) (suc pos) c = ap (◌∷◌ x) (take-set_self cs pos c)

  pub drop-set_self :
      (cs : List (Channel T)) (pos : ℕ) (c : Channel T)
      → pos < length cs
      → drop pos (set cs pos c) ≡ c ∷ drop (suc pos) cs
  drop-set_self [] pos c h = absurd (omega arith)
  drop-set_self (x ∷ cs) zero c h = refl
  drop-set_self (x ∷ cs) (suc pos) c h = drop-set_self cs pos c (omega arith)

  -- The end of the list is its start.
  pub ring-length : (cs : List (Channel T)) → ring (length cs) cs ≡ ring 0 cs
  ring-length cs =
      rw (drop-all (length cs) cs (omega arith), take-all (length cs) cs (omega arith), append-nil)
        refl

  -- Removing the sender at hand leaves the others in order.
  pub ring-remove_at :
      (cs : List (Channel T)) (pos : ℕ) (c : Channel T)
      → get_elem? cs pos ≡ some c
      → ring pos cs ≡ c ∷ ring pos (remove_at cs pos)
  ring-remove_at cs pos c e = rw (drop_at cs pos c e, take-remove_at, drop-remove_at) refl

  pub ring-set :
      (cs : List (Channel T)) (pos : ℕ) (c d : Channel T)
      → pos < length cs
      → get_elem? cs pos ≡ some c
      → ring pos (set cs pos d) ≡ d ∷ ring pos (remove_at cs pos)
  ring-set cs pos c d h e =
      rw (drop-set_self cs pos d h, take-set_self, take-remove_at, drop-remove_at) refl

  pub skip_dead_live :
      (c : Channel T) (cs : List (Channel T)) → c.alive ≡ true → skip_dead (c ∷ cs) ≡ c ∷ cs
  skip_dead_live c cs live = ground arith

  pub skip_dead_dead :
      (c : Channel T) (cs : List (Channel T)) → c.alive ≡ false → skip_dead (c ∷ cs) ≡ skip_dead cs
  skip_dead_dead c cs dead = ground arith

  take-suc :
      (cs : List (Channel T)) (pos : ℕ) (c : Channel T)
      → get_elem? cs pos ≡ some c
      → take (suc pos) cs ≡ take pos cs ++ c ∷ []
  take-suc [] pos c e = cc
  take-suc (x ∷ cs) zero c e = cc
  take-suc (x ∷ cs) (suc pos) c e = ap (◌∷◌ x) (take-suc cs pos c e)

  -- One place on, the sender at hand is the last.
  pub ring-suc :
      (cs : List (Channel T)) (pos : ℕ) (d : Channel T) (rest : List (Channel T))
      → pos < length cs
      → ring pos cs ≡ d ∷ rest
      → ring (suc pos) cs ≡ rest ++ d ∷ []
  ring-suc cs pos d rest h e =
      let (c, at) = get_elem?_lt cs pos h in
      let here : c ∷ (drop (suc pos) cs ++ take pos cs) ≡ d ∷ rest =
        rw (drop_at cs pos c at) at e in
      let same : c ≡ d = cc in
      let others : drop (suc pos) cs ++ take pos cs ≡ rest = cc in
      rw (take-suc cs pos c at, ← others, ← same)
        (sym (append_assoc (drop (suc pos) cs) (take pos cs) (c ∷ [])))

  pub length-ring :
      (cs : List (Channel T)) (pos : ℕ) → pos ≤ length cs → length (ring pos cs) ≡ length cs
  length-ring cs pos h =
      omega
        (arith, length-append (drop pos cs) (take pos cs), length-take pos cs, length-drop pos cs)
