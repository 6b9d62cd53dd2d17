-- ===== src/Msgs/WorkerBuffer/Framing.antt =====
-- A request is framed as the worker's loop expects it.
use casket.Base.{
  ℕ, ◌+◌, ◌%◌, ◌≤◌, ◌<◌, ◌≡◌, refl, sym, ◌∙◌, ap, none, some, [], ◌∷◌, ◌++◌, arith, Bytes, length,
  take, drop, length-append, take-length_append,
}
use casket.Msgs.Wire.{Request, Format, IsRequestFormat, request_frame}
use casket.Msgs.Scan.{IsFraming}
use casket.Msgs.WorkerBuffer.{request_size}

request_size_nil : request_size [] ≡ none
unfolding request_size
request_size_nil = refl

request_size_part : (size : ℕ) (p : Bytes) → length p < size → request_size (size ∷ p) ≡ none
unfolding request_size
request_size_part size p h = ground arith

request_size_whole : (size : ℕ) (p : Bytes) → size ≤ length p → request_size (size ∷ p) ≡ some size
unfolding request_size
request_size_whole size p h = ground arith

module _ {f : Format Request} {IsSendable : Request → Type 0}
    (format : IsRequestFormat f IsSendable) where
  request_frame_lem : (m : Request) → IsSendable m → request_frame f m ≡ 12 ∷ f.serialize m
  unfolding request_frame
  request_frame_lem m s = ap (λ n. (n % 256) ∷ f.serialize m) (format.fixed m s)

  pub length-request_frame : (m : Request) → IsSendable m → length (request_frame f m) ≡ 13
  length-request_frame m s = omega (arith, ap length (request_frame_lem m s), format.fixed m s)

  request_whole :
      (m : Request) (rest : Bytes)
      → IsSendable m
      → (size : ℕ) × (request_size (request_frame f m ++ rest) ≡ some size)
        × (size + 1 ≡ length (request_frame f m))
        × (f.deserialize (take size (drop 1 (request_frame f m ++ rest))) ≡ some m)
  request_whole m rest s =
      let e = ap (λ b. b ++ rest) (request_frame_lem m s) in
      let body : take 12 (f.serialize m ++ rest) ≡ f.serialize m =
        ap (λ n. take n (f.serialize m ++ rest)) (sym (format.fixed m s))
        ∙ take-length_append (f.serialize m) rest in
      (
        12,
        ap request_size e
            ∙ request_size_whole 12 (f.serialize m ++ rest)
                (omega (arith, length-append (f.serialize m) rest, format.fixed m s)),
        omega (arith, length-request_frame m s),
        ap (λ b. f.deserialize (take 12 (drop 1 b))) e
            ∙ ap f.deserialize body
            ∙ format.roundtrip m s,
      )

  request_part :
      (m : Request) (p q : Bytes)
      → IsSendable m
      → request_frame f m ≡ p ++ q
      → length p < length (request_frame f m)
      → request_size p ≡ none
  request_part m [] q s e h = request_size_nil
  request_part m (x ∷ p) q s e h =
      let head : x ∷ (p ++ q) ≡ 12 ∷ f.serialize m = sym e ∙ request_frame_lem m s in
      let same : x ≡ 12 = cc in
      rw same (request_size_part 12 p (omega (arith, length-request_frame m s)))

  pub request-IsFraming : IsFraming 1 request_size f.deserialize (request_frame f) IsSendable
  request-IsFraming = record {
    nothing = request_size_nil;
    whole = request_whole;
    part = request_part;
    grows = λ m s. omega (arith, length-request_frame m s);
  }
