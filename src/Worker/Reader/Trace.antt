-- ===== src/Worker/Reader/Trace.antt =====
-- Which traceparent headers `parse_context` accepts.
use casket.Base.{
  ℕ, ◌≡◌, ◌≢◌, refl, sym, ap, subst, ◌∙◌, ◌⊎◌, inl, inr, true, ok, List, [], ◌∷◌, ◌++◌, map, concat,
  Bytes, codes, All, length, split, eq_bytes_refl, eq_of_eq_bytes, arith, Option, none, some,
  Result-cases, append-nil,
}
use casket.Http.{Context, from_vals}
use casket.Worker.Reader.{parse_context, scan_parts, is_hex, check_ids}

abbrev dash : ℕ
dash = b'-'

abbrev pub Lacks : ℕ → Bytes → Type 0
Lacks c = All (λ d. d ≢ c)

split_whole : (c : ℕ) (xs : Bytes) → Lacks c xs → split c xs ≡ (xs, [])
split_whole c [] h = refl
split_whole c (x ∷ xs) h = ground (arith, split_whole c xs h.1)

split_first :
    (c : ℕ) (xs ys : Bytes)
    → Lacks c xs
    → split c (xs ++ c ∷ ys) ≡ (xs, (split c ys).0 ∷ (split c ys).1)
split_first c [] ys h = ground arith
split_first c (x ∷ xs) ys h = ground (arith, split_first c xs ys h.1)

abbrev join : ℕ → Bytes → List Bytes → Bytes
join c first rest = first ++ concat (map (λ p. c ∷ p) rest)

join-split : (c : ℕ) (xs : Bytes) → join c (split c xs).0 (split c xs).1 ≡ xs
join-split c [] = refl
join-split c (x ∷ xs) = ground (arith, join-split c xs)

split-Lacks : (c : ℕ) (xs : Bytes) → Lacks c (split c xs).0 × All (Lacks c) (split c xs).1
split-Lacks c [] = (tt, tt)
split-Lacks c (x ∷ xs) = ground (arith, split-Lacks c xs)

hex-Lacks : (xs : Bytes) → is_hex xs ≡ true → Lacks dash xs
hex-Lacks [] h = tt
hex-Lacks (x ∷ xs) h = ground (arith, hex-Lacks xs)

-- A version 00 header, with the ids `trace_id` and `parent_id`, and perhaps one part more.
abbrev pub traceparent : Bytes → Bytes → Option Bytes → Bytes
traceparent trace_id parent_id none = codes "00" ++ dash ∷ (trace_id ++ dash ∷ parent_id)
traceparent trace_id parent_id (some x) =
    codes "00" ++ dash ∷ (trace_id ++ dash ∷ (parent_id ++ dash ∷ x))

abbrev pub IsId : ℕ → Bytes → Type 0
IsId n id = (length id ≡ n) × (is_hex id ≡ true)

abbrev pub IsExtension : Option Bytes → Type 0
IsExtension none = Unit
IsExtension (some x) = Lacks dash x

check_ids_ok :
    (span_id trace_id parent_id : Bytes)
    → IsId 32 trace_id
    → IsId 16 parent_id
    → check_ids span_id trace_id parent_id ≡ ok (from_vals span_id trace_id parent_id)
check_ids_ok span_id trace_id parent_id t p = ground arith

check_ids_inv :
    (span_id trace_id parent_id : Bytes) (c : Context)
    → check_ids span_id trace_id parent_id ≡ ok c
    → IsId 32 trace_id × IsId 16 parent_id × (c ≡ from_vals span_id trace_id parent_id)
check_ids_inv span_id trace_id parent_id c h = ground arith

scan_parts_inv :
    (first : Bytes) (rest : List Bytes) (t p : Bytes)
    → scan_parts 0 [] [] (first ∷ rest) ≡ ok (t, p)
    → IsId 32 t
    → IsId 16 p
    → (first ≡ codes "00") × ((rest ≡ t ∷ p ∷ []) ⊎ ((x : Bytes) × (rest ≡ t ∷ p ∷ x ∷ [])))
unfolding scan_parts
scan_parts_inv first [] t p h t' p' = ground (arith, eq_of_eq_bytes first (codes "00"))
scan_parts_inv first (a ∷ []) t p h t' p' = ground (arith, eq_of_eq_bytes first (codes "00"))
scan_parts_inv first (a ∷ b ∷ []) t p h t' p' = ground (arith, eq_of_eq_bytes first (codes "00"))
scan_parts_inv first (a ∷ b ∷ x ∷ []) t p h t' p' =
    ground (arith, eq_of_eq_bytes first (codes "00"))
scan_parts_inv first (a ∷ b ∷ x ∷ y ∷ rest) t p h t' p' =
    ground (arith, eq_of_eq_bytes first (codes "00"))

split-traceparent :
    (t p : Bytes) (ext : Option Bytes)
    → IsId 32 t
    → IsId 16 p
    → IsExtension ext
    → split dash (traceparent t p ext)
      ≡ (codes "00", t ∷ p ∷ (elim ext [ none ↦ [] | some x ↦ x ∷ [] ]))
split-traceparent t p none t' p' e =
    split_first dash (codes "00") (t ++ dash ∷ p) (hex-Lacks (codes "00") refl)
    ∙ ap (λ s. (codes "00", s.0 ∷ s.1))
        (split_first dash t p (hex-Lacks t t'.1)
          ∙ ap (λ s. (t, s.0 ∷ s.1)) (split_whole dash p (hex-Lacks p p'.1)))
split-traceparent t p (some x) t' p' e =
    split_first dash (codes "00") (t ++ dash ∷ (p ++ dash ∷ x)) (hex-Lacks (codes "00") refl)
    ∙ ap (λ s. (codes "00", s.0 ∷ s.1))
        (split_first dash t (p ++ dash ∷ x) (hex-Lacks t t'.1)
          ∙ ap (λ s. (t, s.0 ∷ s.1))
              (split_first dash p x (hex-Lacks p p'.1)
                ∙ ap (λ s. (p, s.0 ∷ s.1)) (split_whole dash x e)))

scan_parts_ok :
    (t p : Bytes) (ext : Option Bytes)
    → scan_parts 0 [] [] (codes "00" ∷ t ∷ p ∷ (elim ext [ none ↦ [] | some x ↦ x ∷ [] ]))
      ≡ ok (t, p)
unfolding scan_parts
scan_parts_ok t p none = rw (eq_bytes_refl (codes "00")) refl
scan_parts_ok t p (some x) = rw (eq_bytes_refl (codes "00")) refl

parse_context_ok :
    (span_id val t p : Bytes)
    → scan_parts 0 [] [] ((split dash val).0 ∷ (split dash val).1) ≡ ok (t, p)
    → parse_context span_id val ≡ check_ids span_id t p
unfolding parse_context
parse_context_ok span_id val t p h = rw (h, parse_context) refl

scan_parts_of :
    (span_id val : Bytes) (c : Context)
    → parse_context span_id val ≡ ok c
    → (t p : Bytes) × (scan_parts 0 [] [] ((split dash val).0 ∷ (split dash val).1) ≡ ok (t, p))
unfolding parse_context
scan_parts_of span_id val c h =
    elim (Result-cases (scan_parts 0 [] [] ((split dash val).0 ∷ (split dash val).1))) [
      | inl (ids, e) ↦ (ids.0, ids.1, e)
      | inr (e', e) ↦ ground arith
    ]

-- Every header of version 00 with a trace id of 32 and a parent id of 16 lower-case hexadecimal
-- digits, and behind them nothing or one part more without a dash, gives a context with those two
-- ids and the new span's.
pub parse_context-traceparent :
    (span_id t p : Bytes) (ext : Option Bytes)
    → IsId 32 t
    → IsId 16 p
    → IsExtension ext
    → parse_context span_id (traceparent t p ext) ≡ ok (from_vals span_id t p)
parse_context-traceparent span_id t p ext t' p' e =
    parse_context_ok span_id (traceparent t p ext) t p (
      ap (λ s. scan_parts 0 [] [] (s.0 ∷ s.1)) (split-traceparent t p ext t' p' e)
      ∙ scan_parts_ok t p ext)
    ∙ check_ids_ok span_id t p t' p'

-- `parse_context` accepts no other header.
pub parse_context_inv :
    (span_id val : Bytes) (c : Context)
    → parse_context span_id val ≡ ok c
    → (t p : Bytes) × (ext : Option Bytes) × (val ≡ traceparent t p ext)
      × IsExtension ext
      × IsId 32 t
      × IsId 16 p
      × (c ≡ from_vals span_id t p)
parse_context_inv span_id val c h =
    let first = (split dash val).0 in
    let rest = (split dash val).1 in
    let (t, p, e) = scan_parts_of span_id val c h in
    let (t', p', same) =
      check_ids_inv span_id t p c (sym (parse_context_ok span_id val t p e) ∙ h) in
    let (version, parts) = scan_parts_inv first rest t p e t' p' in
    let whole : join dash first rest ≡ join dash (codes "00") rest =
      ap (λ f. join dash f rest) version in
    elim parts [
      | inl two ↦ (
        t,
        p,
        none,
        sym (join-split dash val)
            ∙ whole
            ∙ ap (join dash (codes "00")) two
            ∙ ap (λ b. codes "00" ++ dash ∷ (t ++ dash ∷ b)) (append-nil p),
        tt,
        t',
        p',
        same,
      )
      | inr (x, three) ↦ (
        t,
        p,
        some x,
        sym (join-split dash val)
            ∙ whole
            ∙ ap (join dash (codes "00")) three
            ∙ ap (λ b. codes "00" ++ dash ∷ (t ++ dash ∷ (p ++ dash ∷ b))) (append-nil x),
        (subst (All (Lacks dash)) three (split-Lacks dash val).1).1.1.0,
        t',
        p',
        same,
      )
    ]
