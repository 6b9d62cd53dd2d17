-- ===== src/Msgs/Scan.antt =====
-- The loop by which both buffers take messages off the bytes that have come in: read the size,
-- stop if the message is not whole, decode, go on behind it. The buffers differ in the size field
-- (`header` bytes, read by `size_of`, which is `none` where the loop stops).
use casket.Base.{
  ℕ, zero, suc, ◌+◌, ◌≤◌, ◌<◌, ◌≡◌, refl, sym, ◌∙◌, ap, Option, none, some, List, [], ◌∷◌, ◌++◌,
  map, arith, Bytes, length, take, drop, concat, All, length-append, drop-length_append, dec_le,
  drop-add, append_split, append-eq-nil, subst,
}

-- The messages and the number of bytes that they took; `none` is the panic of `expect`. Each round
-- takes a byte at least, so fuel for the length of the buffer is enough.
unfoldable pub scan :
    {M : Type 0} → ℕ → (Bytes → Option ℕ) → (Bytes → Option M) → ℕ → Bytes → Option (List M × ℕ)
scan header size_of decode zero buf = some ([], 0)
scan header size_of decode (suc fuel) buf = elim (size_of buf) [
  | none ↦ some ([], 0)
  | some size ↦ elim (decode (take size (drop header buf))) [
    | none ↦ none
    | some m ↦ elim (scan header size_of decode fuel (drop (size + header) buf)) [
      | none ↦ none
      | some (ms, n) ↦ some (m ∷ ms, size + header + n)
    ]
  ]
]

-- What the loop relies on, for the messages that are sent: a whole frame is recognised whatever
-- follows it, and a part of one is left alone.
pub record IsFraming {M : Type 0} (header : ℕ) (size_of : Bytes → Option ℕ)
    (decode : Bytes → Option M) (frame : M → Bytes) (IsSendable : M → Type 0) : Type 0 where
  pub nothing : size_of [] ≡ none
  pub whole :
      (m : M) (rest : Bytes)
      → IsSendable m
      → (size : ℕ) × (size_of (frame m ++ rest) ≡ some size)
        × (size + header ≡ length (frame m))
        × (decode (take size (drop header (frame m ++ rest))) ≡ some m)
  pub part :
      (m : M) (p q : Bytes)
      → IsSendable m
      → frame m ≡ p ++ q
      → length p < length (frame m)
      → size_of p ≡ none
  pub grows : (m : M) → IsSendable m → 0 < length (frame m)

module _ {M : Type 0} {header : ℕ} {size_of : Bytes → Option ℕ} {decode : Bytes → Option M}
    {frame : M → Bytes} {IsSendable : M → Type 0}
    (framing : IsFraming header size_of decode frame IsSendable) where
  abbrev pub wire : List M → Bytes
  wire ms = concat (map frame ms)

  -- Of `left`, less than the first message has come in.
  abbrev pub IsShort : List M → Bytes → Type 0
  IsShort [] r = r ≡ []
  IsShort (m ∷ ms) r = length r < length (frame m)

  -- Of the messages `ms`, the bytes `p` have come in and `q` have not. The loop takes all that
  -- are whole, in order, and leaves the start of the next.
  abbrev pub Scans : List M → Bytes → Bytes → Option (List M × ℕ) → Type 0
  Scans ms p q r =
      (got left : List M) × (n : ℕ) × (r ≡ some (got, n))
      × (ms ≡ got ++ left)
      × (n ≤ length p)
      × (drop n p ++ q ≡ wire left)
      × IsShort left (drop n p)

  scan_stops :
      (fuel : ℕ) (p : Bytes) → size_of p ≡ none → scan header size_of decode fuel p ≡ some ([], 0)
  unfolding scan
  scan_stops zero p e = refl
  scan_stops (suc fuel) p e = rw (e, scan) refl

  scan_steps :
      (fuel size n : ℕ) (p : Bytes) (m : M) (ms : List M)
      → size_of p ≡ some size
      → decode (take size (drop header p)) ≡ some m
      → scan header size_of decode fuel (drop (size + header) p) ≡ some (ms, n)
      → scan header size_of decode (suc fuel) p ≡ some (m ∷ ms, size + header + n)
  unfolding scan
  scan_steps fuel size n p m ms e d r = rw (e, scan) (rw d (rw r refl))

  scan_frame :
      (fuel : ℕ) (m : M) (ms : List M) (t q : Bytes)
      → IsSendable m
      → Scans ms t q (scan header size_of decode fuel t)
      → Scans (m ∷ ms) (frame m ++ t) q (scan header size_of decode (suc fuel) (frame m ++ t))
  scan_frame fuel m ms t q s (got, left, n, r, split, h, rest, short) =
      let (size, e, k, d) = framing.whole m t s in
      let behind : drop (size + header) (frame m ++ t) ≡ t =
        rw k (drop-length_append (frame m) t) in
      let same : drop (size + header + n) (frame m ++ t) ≡ drop n t =
        drop-add (size + header) n (frame m ++ t) ∙ ap (drop n) behind in
      (
        m ∷ got,
        left,
        size + header + n,
        scan_steps fuel size n (frame m ++ t) m got e d
            (ap (scan header size_of decode fuel) behind ∙ r),
        ap (◌∷◌ m) split,
        omega (arith, length-append (frame m) t),
        rw same rest,
        rw same short,
      )

  scan_short :
      (fuel : ℕ) (m : M) (ms : List M) (p q : Bytes)
      → IsSendable m
      → p ++ q ≡ wire (m ∷ ms)
      → length p < length (frame m)
      → Scans (m ∷ ms) p q (scan header size_of decode fuel p)
  scan_short fuel m ms p q s e h =
      let (t, front, back) = append_split p q (frame m) (wire ms) (sym e) (omega arith) in
      ([], m ∷ ms, 0, scan_stops fuel p (framing.part m p t s front h), refl, omega arith, e, h)

  -- The loop reads every message that is whole, whatever has come in so far.
  pub scan-Scans :
      (ms : List M) (p q : Bytes) (fuel : ℕ)
      → All IsSendable ms
      → p ++ q ≡ wire ms
      → length p ≤ fuel
      → Scans ms p q (scan header size_of decode fuel p)
  scan-Scans [] p q fuel s e h =
      let nil = append-eq-nil p q e in
      ([], [], 0, scan_stops fuel p (ap size_of nil ∙ framing.nothing), refl, omega arith, e, nil)
  scan-Scans (m ∷ ms) p q zero s e h = elim (dec_le (length (frame m)) (length p)) [
    | yes whole ↦ absurd (omega (arith, framing.grows m s.0))
    | no part ↦ scan_short zero m ms p q s.0 e (omega arith)
  ]
  scan-Scans (m ∷ ms) p q (suc fuel) s e h = elim (dec_le (length (frame m)) (length p)) [
    | yes whole ↦
        let (t, front, back) = append_split (frame m) (wire ms) p q e whole in
        subst (λ b. Scans (m ∷ ms) b q (scan header size_of decode (suc fuel) b)) (sym front)
          (scan_frame fuel m ms t q s.0 (
            scan-Scans ms t q fuel s.1 back
              (omega (arith, ap length front, length-append (frame m) t, framing.grows m s.0))))
    | no part ↦ scan_short (suc fuel) m ms p q s.0 e (omega arith)
  ]

  -- When everything has come in, nothing is left.
  pub IsShort-done :
      (left : List M) (r q : Bytes) → r ++ q ≡ wire left → IsShort left r → q ≡ [] → left ≡ []
  IsShort-done [] r q e h nil = refl
  IsShort-done (m ∷ ms) r q e h nil = absurd (
      omega
        (arith, ap length e, length-append r q, ap length nil, length-append (frame m) (wire ms)))
