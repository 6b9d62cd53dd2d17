-- ===== src/Worker/Reader/Given.antt =====
-- The length of the body that a request's headers give.
use casket.Base.{
  is_utf8, ℕ, ◌≡◌, sym, ap, ◌∙◌, inl, inr, Option-cases, Result-cases, Bool-cases, Option, none,
  some, [], ◌∷◌, Bytes, codes, List, eq_ignore_ascii_case, if◌then◌else◌, Result, ok, err, arith,
}
use casket.Config.{parse_usize}
use casket.Http.{HttpError, bad_value}
use casket.Worker.Reader.{
  Parsed, Library, Random, Fields, no_fields, set_field, set_fields, scan_headers, build,
  PartialHttpReq, new_request,
}

-- The length of the body that headers give: that of the last Content-Length, or 0.
abbrev pub length_given : List (Bytes × Bytes) → ℕ → ℕ
length_given [] n = n
length_given ((name, value) ∷ rest) n = length_given rest (
    if eq_ignore_ascii_case name (codes "Content-Length")
    then elim (parse_usize value) [ none ↦ n | some m ↦ m ]
    else n)

set_fields_given :
    (random : Random) (name value : Bytes) (n : ℕ) (f f' : Fields)
    → Path (Result HttpError Fields) (ok (set_fields random name value n f)) (ok f')
    → f'.content_length ≡ n
unfolding set_fields
set_fields_given random name value n f f' h =
    ap (λ r. elim r [ ok f ↦ f.content_length | err e ↦ n ]) (sym h)

set_length_given :
    (random : Random) (name value : Bytes) (f f' : Fields) (parsed : Option ℕ)
    → (elim parsed [
      | none ↦ err (bad_value (codes "Content-Length not uint"))
      | some n ↦ ok (set_fields random name value n f)
    ])
      ≡ ok f'
    → f'.content_length ≡ (elim parsed [ none ↦ f.content_length | some m ↦ m ])
set_length_given random name value f f' none h = ground arith
set_length_given random name value f f' (some n) h = set_fields_given random name value n f f' h

set_field_given :
    (random : Random) (name value : Bytes) (f f' : Fields)
    → set_field random name value f ≡ ok f'
    → f'.content_length ≡ length_given ((name, value) ∷ []) f.content_length
unfolding set_field
set_field_given random name value f f' h = elim (Bool-cases (is_utf8 [] value)) [
  | inl text ↦ elim (Bool-cases (eq_ignore_ascii_case name (codes "Content-Length"))) [
    | inl e ↦
        let h' = rw e at (rw (text, set_field) at h) in
        rw e (set_length_given random name value f f' (parse_usize value) h')
    | inr e ↦
        let h' = rw e at (rw (text, set_field) at h) in
        rw e (set_fields_given random name value f.content_length f f' h')
  ]
  | inr bad ↦ let h' = rw (bad, set_field) at h in ground arith
]

scan_headers_given :
    (random : Random) (headers : List (Bytes × Bytes)) (f f' : Fields)
    → scan_headers random headers f ≡ ok f'
    → f'.content_length ≡ length_given headers f.content_length
unfolding scan_headers
scan_headers_given random [] f f' h = ground arith
scan_headers_given random ((name, value) ∷ rest) f f' h =
    elim (Result-cases (set_field random name value f)) [
      | inl (f₁, e) ↦
          let rest_h : scan_headers random rest f₁ ≡ ok f' = ground (arith, h, e) in
          scan_headers_given random rest f₁ f' rest_h
          ∙ ap (length_given rest) (set_field_given random name value f f₁ e)
      | inr (x, e) ↦ ground (arith, h, e)
    ]

module _ {Method Url : Type 0} (lib : Library Method Url) (random : Random) where
  build_given :
      (method : Method) (path : Bytes) (f : Fields) (p : PartialHttpReq Method Url)
      → build lib random method path f ≡ ok p
      → p.content_length ≡ f.content_length
  build_given method path f p e = ground arith

  pub new_request_given :
      (request : Parsed) (p : PartialHttpReq Method Url)
      → new_request lib random request ≡ ok p
      → p.content_length ≡ length_given request.headers 0
  unfolding new_request
  new_request_given request p e = elim (Option-cases (lib.parse_method request.method)) [
    | inl bad ↦ ground (arith, e, bad)
    | inr (method, m) ↦ elim (Result-cases (scan_headers random request.headers no_fields)) [
      | inl (f, s) ↦
          let built : build lib random method request.path f ≡ ok p = ground (arith, e, m, s) in
          build_given method request.path f p built
          ∙ scan_headers_given random request.headers no_fields f s
      | inr (x, s) ↦ ground (arith, e, m, s)
    ]
  ]
