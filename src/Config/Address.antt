-- ===== src/Config/Address.antt =====
-- `SocketAddrV4` and its `parse`, of the standard library: four octets with no leading zero,
-- joined by dots, a colon and a port.
use casket.Base.{ℕ, Bool, false, Option, none, some, [], ◌∷◌, Bytes, ◌==◌, if◌then◌else◌, is_empty}
use casket.Config.Number.{is_digit, parse_digits}

pub record SocketAddrV4 : Type 0 where
  pub ip : ℕ × ℕ × ℕ × ℕ
  pub port : ℕ

-- The digits at the front, and what follows them.
unfoldable pub span_digits : Bytes → Bytes × Bytes
span_digits [] = ([], [])
span_digits (c ∷ cs) =
    let (digits, rest) = span_digits cs in if is_digit c then (c ∷ digits, rest) else ([], c ∷ cs)

abbrev has_zero_prefix : Bytes → Bool
has_zero_prefix [] = false
has_zero_prefix (c ∷ []) = false
has_zero_prefix (c ∷ d ∷ cs) = c == b'0'

unfoldable pub parse_octet : Bytes → Option (ℕ × Bytes)
unfolding span_digits parse_digits
parse_octet cs =
    let (digits, rest) = span_digits cs in
    if is_empty digits
    then none
    else if has_zero_prefix digits
    then none
    else elim (parse_digits 256 0 digits) [ none ↦ none | some n ↦ some (n, rest) ]

abbrev parse_char : ℕ → Bytes → Option Bytes
parse_char c [] = none
parse_char c (d ∷ cs) = if d == c then some cs else none

abbrev parse_port : Bytes → Option ℕ
parse_port cs = if is_empty cs then none else parse_digits 65536 0 cs

infixl 5 ◌>>=◌
abbrev ◌>>=◌ : {A B : Type 0} → Option A → (A → Option B) → Option B
none >>= f = none
some a >>= f = f a

unfoldable pub parse_socket_addr : Bytes → Option SocketAddrV4
unfolding parse_octet
parse_socket_addr cs = do
  (a, cs) ← parse_octet cs
  cs ← parse_char b'.' cs
  (b, cs) ← parse_octet cs
  cs ← parse_char b'.' cs
  (c, cs) ← parse_octet cs
  cs ← parse_char b'.' cs
  (d, cs) ← parse_octet cs
  cs ← parse_char b':' cs
  port ← parse_port cs
  some (record { ip = (a, b, c, d); port = port })
