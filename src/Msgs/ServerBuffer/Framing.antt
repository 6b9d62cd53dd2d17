-- ===== src/Msgs/ServerBuffer/Framing.antt =====
-- A response is framed as the server's loop expects it.
use casket.Base.{
  ℕ, ◌+◌, ◌%◌, ◌^◌, ◌≤◌, ◌<◌, ◌≡◌, refl, sym, ◌∙◌, ap, none, some, [], ◌++◌, append_assoc, arith,
  Bytes, length, take, drop, dec_le, length-append, take-length_append, append_split,
}
use casket.Msgs.Wire.{
  Response, Format, IsResponseFormat, to_be_bytes, from_be_bytes, response_frame,
  from_be_bytes-to_be_bytes, length-to_be_bytes,
}
use casket.Msgs.Scan.{IsFraming}
use casket.Msgs.ServerBuffer.{response_size}

response_size_small : (p : Bytes) → length p ≤ 4 → response_size p ≡ none
unfolding response_size
response_size_small p h = ground arith

response_size_part : (p : Bytes) → length p < from_be_bytes p + 4 → response_size p ≡ none
unfolding response_size
response_size_part p h = ground arith

response_size_whole :
    (p : Bytes)
    → 4 < length p
    → from_be_bytes p + 4 ≤ length p
    → response_size p ≡ some (from_be_bytes p)
unfolding response_size
response_size_whole p h h' = ground arith

response_size_nil : response_size [] ≡ none
unfolding response_size
response_size_nil = refl

drop-to_be_bytes : (n : ℕ) (rest : Bytes) → drop 4 (to_be_bytes n ++ rest) ≡ rest
unfolding to_be_bytes
drop-to_be_bytes n rest = refl

module _ {f : Format Response} {IsSendable : Response → Type 0}
    (format : IsResponseFormat f IsSendable) where
  response_frame_lem :
      (m : Response)
      → IsSendable m
      → response_frame f m ≡ to_be_bytes (length (f.serialize m)) ++ f.serialize m
  unfolding response_frame
  response_frame_lem m s =
      let e : length (f.serialize m) % 2 ^ 32 ≡ length (f.serialize m) =
        omega (arith, format.short m s) in
      rw e refl

  pub length-response_frame :
      (m : Response) → IsSendable m → length (response_frame f m) ≡ length (f.serialize m) + 4
  length-response_frame m s =
      let size = length (f.serialize m) in
      omega (
        arith,
        ap length (response_frame_lem m s),
        length-append (to_be_bytes size) (f.serialize m),
        length-to_be_bytes size,
      )

  framed :
      (m : Response) (rest : Bytes)
      → IsSendable m
      → response_frame f m ++ rest ≡ to_be_bytes (length (f.serialize m)) ++ (f.serialize m ++ rest)
  framed m rest s =
      ap (λ b. b ++ rest) (response_frame_lem m s)
      ∙ append_assoc (to_be_bytes (length (f.serialize m))) (f.serialize m) rest

  response_whole :
      (m : Response) (rest : Bytes)
      → IsSendable m
      → (size : ℕ) × (response_size (response_frame f m ++ rest) ≡ some size)
        × (size + 4 ≡ length (response_frame f m))
        × (f.deserialize (take size (drop 4 (response_frame f m ++ rest))) ≡ some m)
  response_whole m rest s =
      let size = length (f.serialize m) in
      let all = to_be_bytes size ++ (f.serialize m ++ rest) in
      let field : from_be_bytes all ≡ size =
        from_be_bytes-to_be_bytes size (f.serialize m ++ rest) (format.short m s) in
      let long : size + 4 ≤ length all = omega (
        arith,
        length-append (to_be_bytes size) (f.serialize m ++ rest),
        length-append (f.serialize m) rest,
        length-to_be_bytes size,
      ) in
      let body : take size (drop 4 all) ≡ f.serialize m =
        ap (take size) (drop-to_be_bytes size (f.serialize m ++ rest))
        ∙ take-length_append (f.serialize m) rest in
      (
        size,
        ap response_size (framed m rest s)
            ∙ response_size_whole all (omega (arith, format.long m s)) (omega arith)
            ∙ ap some field,
        omega (arith, length-response_frame m s),
        ap (λ b. f.deserialize (take size (drop 4 b))) (framed m rest s)
            ∙ ap f.deserialize body
            ∙ format.roundtrip m s,
      )

  response_part :
      (m : Response) (p q : Bytes)
      → IsSendable m
      → response_frame f m ≡ p ++ q
      → length p < length (response_frame f m)
      → response_size p ≡ none
  response_part m p q s e h = elim (dec_le (length p) 4) [
    | yes small ↦ response_size_small p small
    | no more ↦
        let size = length (f.serialize m) in
        let (t, front, _) =
          append_split (to_be_bytes size) (f.serialize m) p q (sym e ∙ response_frame_lem m s)
            (omega (arith, length-to_be_bytes size)) in
        let field : from_be_bytes p ≡ size =
          ap from_be_bytes front ∙ from_be_bytes-to_be_bytes size t (format.short m s) in
        response_size_part p (omega (arith, length-response_frame m s))
  ]

  pub response-IsFraming : IsFraming 4 response_size f.deserialize (response_frame f) IsSendable
  response-IsFraming = record {
    nothing = response_size_nil;
    whole = response_whole;
    part = response_part;
    grows = λ m s. omega (arith, length-response_frame m s);
  }
