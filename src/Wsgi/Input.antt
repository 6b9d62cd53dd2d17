-- ===== src/Wsgi/Input.antt =====
-- What an application gets when it reads its request.
use casket.Base.{
  ℕ, zero, suc, ◌-◌, ◌≤◌, ◌≡◌, ◌≢◌, refl, ap, ◌∙◌, ◌⊎◌, inl, inr, Option-cases, Bool-cases, Option,
  none, some, List, [], ◌∷◌, ◌++◌, Bytes, All, ◌==◌, length, take, drop, take-append-drop, take-all,
  drop-add, append_assoc, append-nil, arith, length-drop, drop-all, replicate, ==_iff,
}
use casket.Wsgi.{WsgiInput, new, read, read_size, find_newline, readline}

-- The reads of the sizes `sizes`, one behind the other, and all that they give.
abbrev pub read_all : WsgiInput → List (Option ℕ) → WsgiInput × Bytes
read_all s [] = (s, [])
read_all s (size ∷ sizes) =
    let (s', got) = read s size in let (s'', rest) = read_all s' sizes in (s'', got ++ rest)

read_size-le : (n : ℕ) (size : Option ℕ) → read_size n size ≤ n
read_size-le n none = omega arith
read_size-le n (some size) = ground arith

-- What a read gives and what is left behind it are what was left before it.
abbrev pub Reads : WsgiInput → WsgiInput × Bytes → Type 0
Reads s (s', got) =
    (got ++ drop s'.pos s'.body ≡ drop s.pos s.body)
    × (s'.body ≡ s.body)
    × (s'.pos ≤ length s'.body)

read_lem : (s : WsgiInput) (size : Option ℕ) → s.pos ≤ length s.body → Reads s (read s size)
unfolding read
read_lem s size h =
    let k = read_size (length s.body - s.pos) size in
    (
      ap (λ b. take k (drop s.pos s.body) ++ b) (drop-add s.pos k s.body)
          ∙ take-append-drop k (drop s.pos s.body),
      refl,
      omega (arith, read_size-le (length s.body - s.pos) size),
    )

read_all_lem :
    (sizes : List (Option ℕ)) (s : WsgiInput) → s.pos ≤ length s.body → Reads s (read_all s sizes)
read_all_lem [] s h = (refl, refl, h)
read_all_lem (size ∷ sizes) s h =
    let (got, body, inside) = read_lem s size h in
    let (rest, body', inside') = read_all_lem sizes (read s size).0 inside in
    (
      append_assoc (read s size).1 _ _ ∙ ap (λ b. (read s size).1 ++ b) rest ∙ got,
      body' ∙ body,
      inside',
    )

-- However an application reads its request with `read`, the pieces that it gets are a front part of
-- the body, in order and each byte once; and a last `read()` gives all that is left.
pub read_all_rest :
    (sizes : List (Option ℕ)) (body : Bytes)
    → let (s, got) = read_all (new body) sizes in got ++ (read s none).1 ≡ body
unfolding new read
read_all_rest sizes body =
    let (rest, same, inside) = read_all_lem sizes (new body) (omega arith) in
    let s = (read_all (new body) sizes).0 in
    ap (λ b. (read_all (new body) sizes).1 ++ b)
      (take-all (length s.body - s.pos) (drop s.pos s.body)
        (omega (arith, length-drop s.pos s.body)))
    ∙ rest

find_newline-none : (bs : Bytes) → find_newline bs ≡ none → All (λ b. b ≢ 10) bs
unfolding find_newline
find_newline-none [] h = tt
find_newline-none (b ∷ bs) h = elim (Option-cases (find_newline bs)) [
  | inl e ↦ ((ground arith), find_newline-none bs e)
  | inr (n, e) ↦ ground arith
]

find_newline-some :
    (bs : Bytes) (n : ℕ)
    → find_newline bs ≡ some n
    → (rest : Bytes) × (drop n bs ≡ 10 ∷ rest) × All (λ b. b ≢ 10) (take n bs)
unfolding find_newline
find_newline-some [] n h = ground arith
find_newline-some (b ∷ bs) zero h = elim (Bool-cases (b == 10)) [
  | inl e ↦ (bs, ap (λ c. c ∷ bs) ((==_iff b 10).0 e), tt)
  | inr e ↦ elim (Option-cases (find_newline bs)) [
    | inl e' ↦ ground arith
    | inr (m, e') ↦ ground arith
  ]
]
find_newline-some (b ∷ bs) (suc n) h =
    let before : find_newline bs ≡ some n = ground arith in
    let other : b ≢ 10 = ground arith in
    let (rest, e, all) = find_newline-some bs n before in (rest, e, (other, all))

-- The line has no newline; behind it the body ends, or a newline is the next byte still.
abbrev pub IsLine : WsgiInput → WsgiInput × Bytes → Type 0
IsLine s (s', line) =
    All (λ b. b ≢ 10) line
    × (line ++ drop s'.pos s'.body ≡ drop s.pos s.body)
    × (s'.body ≡ s.body)
    × ((drop s'.pos s'.body ≡ []) ⊎ ((rest : Bytes) × (drop s'.pos s'.body ≡ 10 ∷ rest)))

-- `readline` gives what stands before the next newline, or all that is left where there is none.
-- It leaves the newline where it is.
pub readline-IsLine : (s : WsgiInput) → IsLine s (readline s)
unfolding readline
readline-IsLine s = elim (Option-cases (find_newline (drop s.pos s.body))) [
  | inl e ↦
      let end : drop (length s.body) s.body ≡ [] = drop-all (length s.body) s.body (omega arith) in
      rw (e, readline)
        (
          find_newline-none (drop s.pos s.body) e,
          ap (λ b. drop s.pos s.body ++ b) end ∙ append-nil _,
          refl,
          inl end,
        )
  | inr (n, e) ↦
      let (rest, newline, all) = find_newline-some (drop s.pos s.body) n e in
      rw (e, readline)
        (
          all,
          ap (λ b. take n (drop s.pos s.body) ++ b) (drop-add s.pos n s.body)
              ∙ take-append-drop n (drop s.pos s.body),
          refl,
          inr (rest, drop-add s.pos n s.body ∙ newline),
        )
]

readline_at_newline :
    (s : WsgiInput) (rest : Bytes)
    → drop s.pos s.body ≡ 10 ∷ rest
    → (readline s).1 ≡ [] × (drop (readline s).0.pos (readline s).0.body ≡ 10 ∷ rest)
unfolding readline find_newline
readline_at_newline s rest h =
    let found : find_newline (drop s.pos s.body) ≡ some 0 = ap find_newline h in
    rw (found, readline) (refl, ap (λ p. drop p s.body) (omega arith) ∙ h)

-- The lines of `n` calls of `readline`.
abbrev pub lines : ℕ → WsgiInput → List Bytes
lines zero s = []
lines (suc n) s = (readline s).1 ∷ lines n (readline s).0

lines_at_newline :
    (n : ℕ) (s : WsgiInput) (rest : Bytes)
    → drop s.pos s.body ≡ 10 ∷ rest
    → lines n s ≡ replicate n []
lines_at_newline zero s rest h = refl
lines_at_newline (suc n) s rest h =
    let (empty, stays) = readline_at_newline s rest h in
    ap (λ l. l ∷ lines n (readline s).0) empty
    ∙ ap (◌∷◌ []) (lines_at_newline n (readline s).0 rest stays)

-- An application that reads its request line by line does not get beyond the first newline: if the
-- first line ends at one, every later call of `readline`, however many there are, gives an empty
-- line, which is what the protocol gives at the end of the body.
pub readline_stuck :
    (s : WsgiInput) (n : ℕ)
    → drop (readline s).0.pos (readline s).0.body ≢ []
    → lines (suc n) s ≡ (readline s).1 ∷ replicate n []
readline_stuck s n h =
    let (_, _, _, next) = readline-IsLine s in
    elim next [
      | inl e ↦ absurd (h e)
      | inr (rest, e) ↦ ap (◌∷◌ (readline s).1) (lines_at_newline n (readline s).0 rest e)
    ]
