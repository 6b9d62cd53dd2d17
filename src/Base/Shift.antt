-- ===== src/Base/Shift.antt =====
-- The loop `for n in 0..count { buf[n] = buf[n + off]; }`, by which the buffers move what is
-- left to their front.
use Prim.Native.Nat.{ℕ, zero, suc, ◌+◌, ◌-◌, ◌≤◌}
use mathlib.Core.Path.{◌≡◌, refl, sym, ap, ◌∙◌}
use mathlib.Core.List.{List, [], ◌∷◌, ◌++◌, append_assoc, append-nil}
use native.Mathlib.Omega.{arith}
use casket.Base.Seq.{length, get_or, set, take, drop, length-set, length-drop, take-all}

-- From index `n` on, `count` rounds.
unfoldable pub shift_loop : ℕ → ℕ → ℕ → List ℕ → List ℕ
shift_loop zero n off buf = buf
shift_loop (suc count) n off buf = shift_loop count (suc n) off (set buf n (get_or buf (n + off) 0))

unfoldable pub shift_down : ℕ → ℕ → List ℕ → List ℕ
unfolding shift_loop
shift_down count off buf = shift_loop count 0 off buf

pub length-shift_loop :
    (count n off : ℕ) (buf : List ℕ) → length (shift_loop count n off buf) ≡ length buf
unfolding shift_loop
length-shift_loop zero n off buf = refl
length-shift_loop (suc count) n off buf =
    length-shift_loop count (suc n) off (set buf n (get_or buf (n + off) 0))
    ∙ length-set buf n (get_or buf (n + off) 0)

pub length-shift_down :
    (count off : ℕ) (buf : List ℕ) → length (shift_down count off buf) ≡ length buf
unfolding shift_down
length-shift_down count off buf = length-shift_loop count 0 off buf

take-set_here :
    (n v : ℕ) (buf : List ℕ)
    → suc n ≤ length buf
    → take (suc n) (set buf n v) ≡ take n buf ++ v ∷ []
take-set_here n v [] h = absurd (omega arith)
take-set_here zero v (x ∷ xs) h = refl
take-set_here (suc n) v (x ∷ xs) h = ap (◌∷◌ x) (take-set_here n v xs (omega arith))

drop-set_before : (n k v : ℕ) (buf : List ℕ) → suc n ≤ k → drop k (set buf n v) ≡ drop k buf
drop-set_before n k v [] h = refl
drop-set_before n zero v (x ∷ xs) h = absurd (omega arith)
drop-set_before zero (suc k) v (x ∷ xs) h = refl
drop-set_before (suc n) (suc k) v (x ∷ xs) h = drop-set_before n k v xs (omega arith)

take-drop_cons :
    (count k : ℕ) (buf : List ℕ)
    → suc k ≤ length buf
    → take (suc count) (drop k buf) ≡ get_or buf k 0 ∷ take count (drop (suc k) buf)
take-drop_cons count k [] h = absurd (omega arith)
take-drop_cons count zero (x ∷ xs) h = refl
take-drop_cons count (suc k) (x ∷ xs) h = take-drop_cons count k xs (omega arith)

take-shift_loop :
    (count n off : ℕ) (buf : List ℕ)
    → n + count + off ≤ length buf
    → take (n + count) (shift_loop count n off buf) ≡ take n buf ++ take count (drop (n + off) buf)
unfolding shift_loop
take-shift_loop zero n off buf h =
    ap (λ m. take m buf) (omega arith) ∙ sym (append-nil (take n buf))
take-shift_loop (suc count) n off buf h =
    let v = get_or buf (n + off) 0 in
    let rest = take count (drop (suc (n + off)) buf) in
    let next : take (suc n + count) (shift_loop count (suc n) off (set buf n v))
        ≡ take (suc n) (set buf n v) ++ take count (drop (suc n + off) (set buf n v)) =
      take-shift_loop count (suc n) off (set buf n v) (omega (arith, length-set buf n v)) in
    let same : n + suc count ≡ suc n + count = omega arith in
    let at : suc n + off ≡ suc (n + off) = omega arith in
    rw (
      same,
      next,
      take-set_here n v buf (omega arith),
      at,
      drop-set_before n (suc (n + off)) v buf (omega arith),
      take-drop_cons count (n + off) buf (omega arith),
      append_assoc (take n buf) (v ∷ []) rest,
    )

-- What lay behind the first `off` cells now stands at the front.
pub take-shift_down :
    (count off : ℕ) (buf : List ℕ)
    → count + off ≤ length buf
    → take count (shift_down count off buf) ≡ take count (drop off buf)
unfolding shift_down
take-shift_down count off buf h =
    let at : 0 + count ≡ count = omega arith in
    let from : 0 + off ≡ off = omega arith in
    let e : take (0 + count) (shift_loop count 0 off buf) ≡ take count (drop (0 + off) buf) =
      take-shift_loop count 0 off buf (omega arith) in
    rw at at (rw from at e)

-- Move what follows the first `n` bytes to the front, and truncate.
unfoldable pub consume : ℕ → List ℕ → List ℕ
unfolding shift_down
consume n buf = let left = length buf - n in take left (shift_down left n buf)

pub consume-eq-drop : (n : ℕ) (buf : List ℕ) → n ≤ length buf → consume n buf ≡ drop n buf
unfolding consume
consume-eq-drop n buf h =
    take-shift_down (length buf - n) n buf (omega arith)
    ∙ take-all (length buf - n) (drop n buf) (omega (arith, length-drop n buf))
