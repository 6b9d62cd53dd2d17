-- ===== src/Msgs/Wire.antt =====
-- The two messages, their framing, and the format in which they travel.
use casket.Base.{
  ℕ, ◌+◌, ◌*◌, ◌/◌, ◌%◌, ◌^◌, ◌≤◌, ◌<◌, ◌≡◌, refl, Bool, Option, some, [], ◌∷◌, ◌++◌, arith, Bytes,
  length, get_or,
}

-- `struct Request`
pub record Request : Type 0 where
  pub token : ℕ
  pub fd : ℕ

-- `struct Response`
pub record Response : Type 0 where
  pub token : ℕ
  pub fd : ℕ
  pub keep_alive : Bool
  pub error : Option Bytes

-- `bincode::serialize` and `bincode::deserialize`, for one type of message.
pub record Format (M : Type 0) : Type 0 where
  pub serialize : M → Bytes
  pub deserialize : Bytes → Option M

-- What bincode documents: a value comes back from its bytes, and the integers have a fixed width,
-- so that a request takes eight bytes and four, and a response at least the fourteen of its
-- token, its descriptor and its two tags.
pub record IsRequestFormat (f : Format Request) (IsSendable : Request → Type 0) : Type 0 where
  pub roundtrip : (m : Request) → IsSendable m → f.deserialize (f.serialize m) ≡ some m
  pub fixed : (m : Request) → IsSendable m → length (f.serialize m) ≡ 12

-- A response is sendable only if its text is short enough for a 32-bit size.
pub record IsResponseFormat (f : Format Response) (IsSendable : Response → Type 0) : Type 0 where
  pub roundtrip : (m : Response) → IsSendable m → f.deserialize (f.serialize m) ≡ some m
  pub long : (m : Response) → IsSendable m → 14 ≤ length (f.serialize m)
  pub short : (m : Response) → IsSendable m → length (f.serialize m) < 2 ^ 32

-- `(n as u32).to_be_bytes()`
unfoldable pub to_be_bytes : ℕ → Bytes
to_be_bytes n = (n / 2 ^ 24) % 256 ∷ (n / 2 ^ 16) % 256 ∷ (n / 2 ^ 8) % 256 ∷ n % 256 ∷ []

-- `u32::from_be_bytes([b[0], b[1], b[2], b[3]])`
unfoldable pub from_be_bytes : Bytes → ℕ
from_be_bytes b =
    get_or b 0 0 * 2 ^ 24 + get_or b 1 0 * 2 ^ 16 + get_or b 2 0 * 2 ^ 8 + get_or b 3 0

pub from_be_bytes-to_be_bytes :
    (n : ℕ) (rest : Bytes) → n < 2 ^ 32 → from_be_bytes (to_be_bytes n ++ rest) ≡ n
unfolding from_be_bytes to_be_bytes
from_be_bytes-to_be_bytes n rest h = omega arith

pub length-to_be_bytes : (n : ℕ) → length (to_be_bytes n) ≡ 4
unfolding to_be_bytes
length-to_be_bytes n = refl

-- The frame of a request: `msg.len() as u8`, then the message.
unfoldable pub request_frame : Format Request → Request → Bytes
request_frame f m = (length (f.serialize m) % 256) ∷ f.serialize m

-- The frame of a response: `(msg.len() as u32).to_be_bytes()`, then the message.
unfoldable pub response_frame : Format Response → Response → Bytes
unfolding to_be_bytes
response_frame f m = to_be_bytes (length (f.serialize m) % 2 ^ 32) ++ f.serialize m
