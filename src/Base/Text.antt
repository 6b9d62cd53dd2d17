-- ===== src/Base/Text.antt =====
-- What the code uses of the standard library's texts, which stand as their bytes.
use casket.Base.Test.{Bytes, leb, ltb, eq_bytes, if◌then◌else◌, ◌==◌}
use Prim.Native.Nat.{ℕ, zero, suc, ◌+◌, ◌/◌, ◌%◌}
use mathlib.Core.Bool.{Bool, true, false, ◌&&◌}
use mathlib.Core.List.{List, [], ◌∷◌, ◌++◌, map}
use mathlib.Core.Option.{Option, none, some}

abbrev pub to_ascii_lowercase : ℕ → ℕ
to_ascii_lowercase c = if leb b'A' c && leb c b'Z' then c + 32 else c

abbrev pub eq_ignore_ascii_case : Bytes → Bytes → Bool
eq_ignore_ascii_case cs ds = eq_bytes (map to_ascii_lowercase cs) (map to_ascii_lowercase ds)

abbrev pub starts_with : Bytes → Bytes → Bool
starts_with cs [] = true
starts_with [] (d ∷ ds) = false
starts_with (c ∷ cs) (d ∷ ds) = c == d && starts_with cs ds

-- `to_string` of a number with no more digits than `fuel`.
abbrev pub to_decimal : ℕ → ℕ → Bytes
to_decimal zero n = []
to_decimal (suc fuel) n =
    let rest = to_decimal fuel (n / 10) in
    if ltb n 10 then (b'0' + n) ∷ [] else rest ++ (b'0' + n % 10) ∷ []

-- The ranges of the bytes that must follow `b` in UTF-8.
abbrev pub continuations : ℕ → Option (List (ℕ × ℕ))
continuations b =
    if leb b 127
    then some []
    else if ltb b 194
    then none
    else if leb b 223
    then some ((128, 191) ∷ [])
    else if b == 224
    then some ((160, 191) ∷ (128, 191) ∷ [])
    else if b == 237
    then some ((128, 159) ∷ (128, 191) ∷ [])
    else if leb b 239
    then some ((128, 191) ∷ (128, 191) ∷ [])
    else if b == 240
    then some ((144, 191) ∷ (128, 191) ∷ (128, 191) ∷ [])
    else if leb b 243
    then some ((128, 191) ∷ (128, 191) ∷ (128, 191) ∷ [])
    else if b == 244
    then some ((128, 143) ∷ (128, 191) ∷ (128, 191) ∷ [])
    else none

-- `std::str::from_utf8` succeeds, where the bytes of the ranges `due` come first.
unfoldable pub is_utf8 : List (ℕ × ℕ) → Bytes → Bool
is_utf8 [] [] = true
is_utf8 ((lo, hi) ∷ due) [] = false
is_utf8 ((lo, hi) ∷ due) (b ∷ bs) = leb lo b && (leb b hi && is_utf8 due bs)
is_utf8 [] (b ∷ bs) = elim (continuations b) [ none ↦ false | some due ↦ is_utf8 due bs ]

-- `str::split` at one character: there is always a first part.
abbrev pub split : ℕ → Bytes → Bytes × List Bytes
split c [] = ([], [])
split c (d ∷ ds) =
    let (first, rest) = split c ds in if d == c then ([], first ∷ rest) else (d ∷ first, rest)
