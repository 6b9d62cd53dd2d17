-- ===== src/Wsgi/Headers.antt =====
-- Which entries of an application's environment the client's headers decide.
use casket.Base.{
  ℕ, ◌≡◌, ◌≢◌, refl, sym, ap, ◌∙◌, Bool, true, false, Bool-cases, Option, none, some, inl, inr,
  List, [], ◌∷◌, Bytes, codes, arith, if◌then◌else◌, eq_bytes, eq_bytes_refl, eq_of_eq_bytes,
  starts_with, All,
}
use casket.Http.{HttpRequest}
use casket.Wsgi.Environ.{
  Environ, HttpTypes, Value, str, get_item, set_item, set_items, http_key, set_headers,
  request_items, wsgi_items, build_environ,
}

-- The value of the last header with this key.
abbrev pub last_header : Bytes → List (Bytes × Bytes) → Option Value
last_header key [] = none
last_header key ((name, value) ∷ hs) = elim (last_header key hs) [
  | some v ↦ some v
  | none ↦ if eq_bytes (http_key name) key then some (str value) else none
]

eq_bytes_apart : (i j k : Bytes) → eq_bytes i k ≡ false → eq_bytes i j ≡ true → eq_bytes k j ≡ false
eq_bytes_apart i j k e e' = elim (Bool-cases (eq_bytes k j)) [
  | inl same ↦
      let is : i ≡ k = eq_of_eq_bytes i j e' ∙ sym (eq_of_eq_bytes k j same) in
      absurd (let no : true ≡ false = sym (ap (eq_bytes i) (sym is) ∙ eq_bytes_refl i) ∙ e in cc)
  | inr other ↦ other
]

get_item-set_item :
    (k j : Bytes) (v : Value) (env : Environ)
    → get_item j (set_item k v env) ≡ (if eq_bytes k j then some v else get_item j env)
get_item-set_item k j v [] = refl
get_item-set_item k j v ((i, w) ∷ env) = elim (Bool-cases (eq_bytes i k)) [
  | inl e ↦
      let same : eq_bytes i j ≡ eq_bytes k j = ap (λ b. eq_bytes b j) (eq_of_eq_bytes i k e) in
      rw (e, same) (ground arith)
  | inr e ↦ elim (Bool-cases (eq_bytes i j)) [
    | inl here ↦ rw (e, here, eq_bytes_apart i j k e here) refl
    | inr there ↦ rw (e, there) (get_item-set_item k j v env)
  ]
]

-- The keys of headers, and all others.
abbrev pub is_http : Bytes → Bool
is_http key = starts_with key (codes "HTTP_")

http_key-is_http : (name : Bytes) → is_http (http_key name) ≡ true
unfolding http_key
http_key-is_http name = refl

eq_bytes_other : (k j : Bytes) → is_http k ≢ is_http j → eq_bytes k j ≡ false
eq_bytes_other k j h = elim (Bool-cases (eq_bytes k j)) [
  | inl same ↦ absurd (h (ap is_http (eq_of_eq_bytes k j same)))
  | inr other ↦ other
]

get_item-set_headers :
    (key : Bytes) (hs : List (Bytes × Bytes)) (env : Environ)
    → get_item key (set_headers hs env)
      ≡ (elim (last_header key hs) [ some v ↦ some v | none ↦ get_item key env ])
unfolding set_headers
get_item-set_headers key [] env = refl
get_item-set_headers key ((name, value) ∷ hs) env =
    let e = get_item-set_item (http_key name) key (str value) env in
    let ih = get_item-set_headers key hs (set_item (http_key name) (str value) env) in
    ground (arith, e, ih)

last_header-other :
    (key : Bytes) (hs : List (Bytes × Bytes)) → is_http key ≡ false → last_header key hs ≡ none
last_header-other key [] h = refl
last_header-other key ((name, value) ∷ hs) h =
    let other : eq_bytes (http_key name) key ≡ false =
      eq_bytes_other (http_key name) key (λ e. cc (http_key-is_http name, e, h)) in
    rw (last_header-other key hs h, other) refl

-- The texts of the keys that are no header's.
abbrev IsOther : Bytes × Option Value → Type 0
IsOther (key, v) = is_http key ≡ false

set_items-http :
    (key : Bytes) (items : List (Bytes × Option Value)) (env : Environ)
    → All IsOther items
    → is_http key ≡ true
    → get_item key (set_items items env) ≡ get_item key env
unfolding set_items
set_items-http key [] env others h = refl
set_items-http key ((k, none) ∷ items) env (other, others) h = set_items-http key items env others h
set_items-http key ((k, some v) ∷ items) env (other, others) h =
    let apart : eq_bytes k key ≡ false = eq_bytes_other k key (λ e. cc (other, e, h)) in
    set_items-http key items (set_item k v env) others h
    ∙ get_item-set_item k key v env
    ∙ ap (λ b. if b then some v else get_item key env) apart

set_items-same :
    (key : Bytes) (items : List (Bytes × Option Value)) (env env' : Environ)
    → get_item key env ≡ get_item key env'
    → get_item key (set_items items env) ≡ get_item key (set_items items env')
unfolding set_items
set_items-same key [] env env' e = e
set_items-same key ((k, none) ∷ items) env env' e = set_items-same key items env env' e
set_items-same key ((k, some v) ∷ items) env env' e =
    set_items-same key items (set_item k v env) (set_item k v env') (
      get_item-set_item k key v env
      ∙ ap (λ o. if eq_bytes k key then some v else o) e
      ∙ sym (get_item-set_item k key v env'))

or-none : (o d : Option Value) → d ≡ none → (elim o [ some v ↦ some v | none ↦ d ]) ≡ o
or-none none d e = e
or-none (some v) d e = refl

module _ {Method Url : Type 0} (types : HttpTypes Method Url) (server : Bytes × ℕ) where
  request_items-IsOther :
      (req : HttpRequest Method Url) → All IsOther (request_items types server req)
  unfolding request_items
  request_items-IsOther req =
      (refl, (refl, (refl, (refl, (refl, (refl, (refl, (refl, (refl, tt)))))))))

  wsgi_items-IsOther : (req : HttpRequest Method Url) → All IsOther (wsgi_items types server req)
  unfolding wsgi_items
  wsgi_items-IsOther req = (refl, (refl, (refl, (refl, (refl, (refl, (refl, (refl, tt))))))))

  -- The environment that the request has without its headers.
  abbrev pub without_headers : HttpRequest Method Url → Environ
  without_headers req =
      set_items (wsgi_items types server req) (set_items (request_items types server req) [])

  -- Under a key that begins with HTTP_ an application finds the value of the last header whose name,
  -- in upper case and with its dashes as underscores, gives that key, and nothing if there is none.
  -- Whatever headers a client sends, every other key has what it has without them.
  pub build_environ-get_item :
      (req : HttpRequest Method Url) (key : Bytes)
      → get_item key (build_environ types server req).1
        ≡ (if is_http key then last_header key req.headers else get_item key (without_headers req))
  unfolding build_environ
  build_environ-get_item req key =
      let before = set_items (request_items types server req) [] in
      let found = get_item-set_headers key req.headers before in
      elim (Bool-cases (is_http key)) [
        | inl h ↦ rw h (
            set_items-http key (wsgi_items types server req) (set_headers req.headers before)
              (wsgi_items-IsOther req) h
            ∙ found
            ∙ or-none (last_header key req.headers) (get_item key before) (
                set_items-http key (request_items types server req) [] (request_items-IsOther req)
                  h))
        | inr h ↦ rw h (
            set_items-same key (wsgi_items types server req) (set_headers req.headers before) before
              (found
                ∙ ap (λ o. elim o [ some v ↦ some v | none ↦ get_item key before ])
                    (last_header-other key req.headers h)))
      ]
