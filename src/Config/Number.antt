-- ===== src/Config/Number.antt =====
-- `str::parse` for the 64-bit unsigned integers, and `str::trim_end`, of the standard library.
use casket.Base.{
  ℕ, ◌+◌, ◌*◌, ◌-◌, Bool, ◌&&◌, ◌||◌, Option, none, some, [], ◌∷◌, Bytes, ltb, leb, ◌==◌,
  if◌then◌else◌, usize_mod,
}

abbrev pub is_digit : ℕ → Bool
is_digit c = leb b'0' c && leb c b'9'

-- The value of the digits behind `acc`, if all are digits and it stays below `bound`.
unfoldable pub parse_digits : ℕ → ℕ → Bytes → Option ℕ
parse_digits bound acc [] = some acc
parse_digits bound acc (c ∷ cs) =
    let acc' = acc * 10 + (c - b'0') in
    let rest = parse_digits bound acc' cs in if is_digit c && ltb acc' bound then rest else none

-- A `+` may stand in front, and there is at least one digit.
unfoldable pub parse_usize : Bytes → Option ℕ
unfolding parse_digits
parse_usize [] = none
parse_usize (c ∷ []) = if is_digit c then parse_digits usize_mod 0 (c ∷ []) else none
parse_usize (c ∷ d ∷ cs) =
    if c == b'+' then parse_digits usize_mod 0 (d ∷ cs) else parse_digits usize_mod 0 (c ∷ d ∷ cs)

abbrev pub is_space : ℕ → Bool
is_space c = c == 32 || (leb 9 c && leb c 13)

unfoldable pub trim_end : Bytes → Bytes
trim_end [] = []
trim_end (c ∷ cs) = elim (trim_end cs) [
  | [] ↦ if is_space c then [] else c ∷ []
  | d ∷ ds ↦ c ∷ d ∷ ds
]
