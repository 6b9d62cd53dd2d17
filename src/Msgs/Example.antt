-- ===== src/Msgs/Example.antt =====
-- One format that meets what bincode documents: little-endian integers of fixed width, a byte
-- for each tag, texts behind their length.
use casket.Base.{
  ℕ, zero, suc, ◌+◌, ◌*◌, ◌/◌, ◌%◌, ◌^◌, ◌≤◌, ◌<◌, ◌≡◌, refl, sym, ◌∙◌, ap, Bool, true, false,
  Option, none, some, [], ◌∷◌, ◌++◌, arith, Bytes, length, take, drop, take-length_append,
  append-nil,
}
use casket.Msgs.Wire.{Request, Response, Format, IsRequestFormat, IsResponseFormat}

abbrev to_le : ℕ → ℕ → Bytes
to_le zero n = []
to_le (suc k) n = n % 256 ∷ to_le k (n / 256)

abbrev from_le : Bytes → ℕ
from_le [] = 0
from_le (b ∷ bs) = b + 256 * from_le bs

length-to_le : (k n : ℕ) → length (to_le k n) ≡ k
length-to_le zero n = refl
length-to_le (suc k) n = ap suc (length-to_le k (n / 256))

from_le-to_le_8 : (n : ℕ) → n < 2 ^ 64 → from_le (to_le 8 n) ≡ n
from_le-to_le_8 n h = omega arith

from_le-to_le_4 : (n : ℕ) → n < 2 ^ 32 → from_le (to_le 4 n) ≡ n
from_le-to_le_4 n h = omega arith

abbrev pub request_format : Format Request
request_format = record {
  serialize = λ m. to_le 8 m.token ++ to_le 4 m.fd;
  deserialize = λ b. some (record { token = from_le (take 8 b); fd = from_le (take 4 (drop 8 b)) });
}

pub record IsRequest (m : Request) : Type 0 where
  pub token : m.token < 2 ^ 64
  pub fd : m.fd < 2 ^ 32

request_roundtrip :
    (m : Request) → IsRequest m → request_format.deserialize (request_format.serialize m) ≡ some m
request_roundtrip m s = ground (arith, from_le-to_le_8 m.token s.token, from_le-to_le_4 m.fd s.fd)

pub request_format-IsRequestFormat : IsRequestFormat request_format IsRequest
request_format-IsRequestFormat = record { roundtrip = request_roundtrip; fixed = λ m s. refl }

abbrev to_bool : ℕ → Bool
to_bool zero = false
to_bool (suc n) = true

abbrev of_bool : Bool → ℕ
of_bool false = 0
of_bool true = 1

abbrev put_text : Option Bytes → Bytes
put_text none = 0 ∷ []
put_text (some text) = 1 ∷ (to_le 8 (length text) ++ text)

abbrev get_text : Bytes → Option Bytes
get_text [] = none
get_text (zero ∷ rest) = none
get_text (suc n ∷ rest) = some (take (from_le (take 8 rest)) (drop 8 rest))

abbrev get_tail : Bytes → Bool × Option Bytes
get_tail [] = (false, none)
get_tail (b ∷ rest) = (to_bool b, get_text rest)

abbrev pub response_format : Format Response
response_format = record {
  serialize = λ m. to_le 8 m.token ++ (to_le 4 m.fd ++ (of_bool m.keep_alive ∷ put_text m.error));
  deserialize = λ b. some (record {
    token = from_le (take 8 b);
    fd = from_le (take 4 (drop 8 b));
    keep_alive = (get_tail (drop 12 b)).0;
    error = (get_tail (drop 12 b)).1;
  });
}

abbrev IsText : Option Bytes → Type 0
IsText none = Unit
IsText (some text) = length text < 2 ^ 31

pub record IsResponse (m : Response) : Type 0 where
  pub token : m.token < 2 ^ 64
  pub fd : m.fd < 2 ^ 32
  pub text : IsText m.error

text_roundtrip : (e : Option Bytes) → IsText e → get_text (put_text e) ≡ e
text_roundtrip none h = refl
text_roundtrip (some text) h =
    ap (λ n. some (take n text)) (from_le-to_le_8 (length text) (omega arith))
    ∙ ap some (ap (take (length text)) (sym (append-nil text)) ∙ take-length_append text [])

bool_roundtrip : (b : Bool) → to_bool (of_bool b) ≡ b
bool_roundtrip false = refl
bool_roundtrip true = refl

response_roundtrip :
    (m : Response)
    → IsResponse m
    → response_format.deserialize (response_format.serialize m) ≡ some m
response_roundtrip m s = λ i. some (record {
  token = from_le-to_le_8 m.token s.token i;
  fd = from_le-to_le_4 m.fd s.fd i;
  keep_alive = bool_roundtrip m.keep_alive i;
  error = text_roundtrip m.error s.text i;
})

length-put_text_bounds :
    (e : Option Bytes) → IsText e → (1 ≤ length (put_text e)) × (length (put_text e) < 2 ^ 31 + 10)
length-put_text_bounds none h = (omega arith, omega arith)
length-put_text_bounds (some text) h = (omega arith, omega arith)

pub response_format-IsResponseFormat : IsResponseFormat response_format IsResponse
response_format-IsResponseFormat = record {
  roundtrip = response_roundtrip;
  long = λ m s. omega (arith, (length-put_text_bounds m.error s.text).0);
  short = λ m s. omega (arith, (length-put_text_bounds m.error s.text).1);
}
