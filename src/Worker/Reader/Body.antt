-- ===== src/Worker/Reader/Body.antt =====
-- The request that a reader completes is what the client has sent.
use casket.Base.{
  ℕ, ◌+◌, ◌-◌, ◌*◌, ◌^◌, ◌≤◌, ◌<◌, ◌≡◌, refl, sym, ap, subst, ◌⊎◌, ◌∙◌, inl, inr, Option-cases,
  Result-cases, Bool-cases, Option, none, some, [], ◌∷◌, ◌++◌, Bytes, Result, ok, err, ltb, length,
  resize, overwrite, take, drop, append_assoc, length-drop, length-take, length-resize,
  length-overwrite, take-overwrite, take-append-drop, take-resize, take-all, ◌≢◌, arith,
}
use casket.Http.{HttpRequest, HttpError}
use casket.Worker.Reader.{
  Parsed, Status, failed, incomplete, complete, Library, Random, PartialHttpReq, Reader, begin,
  have_header, State, partial, completed, stream_eof, grown, new_request, take_body, finish,
  start_body, parse_header, read_header, read_body, read_tcp_stream, is_done,
}
use casket.Worker.Reader.Given.{length_given, new_request_given}

-- httparse: a header is no longer than what was parsed.
pub record IsLibrary {Method Url : Type 0} (lib : Library Method Url) : Type 0 where
  pub within :
      (bytes : Bytes) (request : Parsed) (n : ℕ)
      → lib.parse bytes ≡ complete request n
      → n ≤ length bytes

Status-cases :
    (s : Status)
    → ((e : Bytes) × (s ≡ failed e))
      ⊎ ((s ≡ incomplete) ⊎ ((request : Parsed) × (n : ℕ) × (s ≡ complete request n)))
Status-cases (failed e) = inl (e, refl)
Status-cases incomplete = inr (inl refl)
Status-cases (complete request n) = inr (inr (request, n, refl))

module _ {Method Url : Type 0} (lib : Library Method Url) (random : Random) where
  -- Followed by some bytes, `header` was found to be a complete header, which gives the length `n` of
  -- the body.
  abbrev pub IsHeader : Bytes → ℕ → Type 0
  IsHeader header n =
      (rest : Bytes) × (request : Parsed) × (lib.parse (header ++ rest)
        ≡ complete request (length header))
      × (length_given request.headers 0 ≡ n)

  -- The reader holds what it has received: `received` in all.
  abbrev pub IsValid : Bytes → Reader Method Url → Type 0
  IsValid received (begin buf_len buf) =
      (take buf_len buf ≡ received) × (buf_len ≤ length buf) × (2048 ≤ length buf)
  IsValid received (have_header p) =
      (header : Bytes) × IsHeader header p.content_length
      × (received ≡ header ++ take p.bytes_read p.body)
      × (p.bytes_read < p.content_length)
      × (length p.body ≡ p.content_length)

  -- A read gives no more than it has been offered room for.
  abbrev pub Fits : Reader Method Url → Bytes → Type 0
  Fits (begin buf_len buf) bytes = buf_len + length bytes ≤ length (grown lib buf_len buf)
  Fits (have_header p) bytes = p.bytes_read + length bytes ≤ length p.body

  abbrev pub IsComplete : Bytes → HttpRequest Method Url → Type 0
  IsComplete received req =
      (header body : Bytes) × IsHeader header req.content_length
      × (received ≡ header ++ body)
      × (req.body ≡ some body)
      × (length body ≡ req.content_length)

  -- The code refuses what has been received: httparse does, or what it found is refused, or there is
  -- more behind the header than the header says.
  abbrev pub IsRefused : Bytes → HttpError → Type 0
  IsRefused received e =
      ((e' : Bytes) × (lib.parse received ≡ failed e'))
      ⊎ ((request : Parsed) × (n : ℕ) × (lib.parse received ≡ complete request n)
          × ((new_request lib random request ≡ err e)
              ⊎ (length_given request.headers 0 < length (drop n received))))

  abbrev pub Follows : Bytes → Option (Result HttpError (State Method Url)) → Type 0
  Follows received none =
      (request : Parsed) × (n : ℕ) × (lib.parse received ≡ complete request n)
      × (2 ^ 63 ≤ length_given request.headers 0)
  Follows received (some (err e)) = IsRefused received e
  Follows received (some (ok (partial r))) = IsValid received r
  Follows received (some (ok (completed req))) = IsComplete received req
  Follows received (some (ok stream_eof)) = ⊥

  finish-Follows :
      (p : PartialHttpReq Method Url) (received header : Bytes)
      → IsHeader header p.content_length
      → received ≡ header ++ take p.bytes_read p.body
      → p.bytes_read ≤ p.content_length
      → length p.body ≡ p.content_length
      → Follows received (some (ok (finish lib p)))
  unfolding finish
  finish-Follows p received header h e inside size = elim (Bool-cases (is_done lib p)) [
    | inl d ↦
        rw (d, finish)
          (
            header,
            p.body,
            h,
            e ∙ ap (λ b. header ++ b) (take-all p.bytes_read p.body (ground arith)),
            refl,
            size,
          )
    | inr d ↦ rw (d, finish) (header, h, e, (ground arith), size)
  ]

  new_request_body :
      (request : Parsed) (p : PartialHttpReq Method Url)
      → new_request lib random request ≡ ok p
      → p.body ≡ []
  unfolding new_request
  new_request_body request p e = ground arith

  take_body_lem :
      (p p' : PartialHttpReq Method Url) (buffer : Bytes) (n : ℕ)
      → p.body ≡ []
      → take_body lib p buffer n ≡ some (ok p')
      → (length (drop n buffer) ≤ p'.content_length)
        × (p'.content_length ≡ p.content_length)
        × (p'.body ≡ resize p'.content_length 0 (drop n buffer))
        × (p'.bytes_read ≡ length buffer - n)
  unfolding take_body
  take_body_lem p p' buffer n e h = ground arith

  header_lem :
      (buffer : Bytes) (request : Parsed) (n : ℕ)
      → n ≤ length buffer
      → lib.parse buffer ≡ complete request n
      → IsHeader (take n buffer) (length_given request.headers 0)
  header_lem buffer request n h e = (
    drop n buffer,
    request,
    ap lib.parse (take-append-drop n buffer)
        ∙ e
        ∙ ap (complete request)
            (let size : n ≡ length (take n buffer) = omega (arith, length-take n buffer) in size),
    refl,
  )

  take_body-none :
      (p : PartialHttpReq Method Url) (buffer : Bytes) (n : ℕ)
      → take_body lib p buffer n ≡ none
      → 2 ^ 63 ≤ p.content_length
  unfolding take_body
  take_body-none p buffer n h = ground arith

  take_body-err :
      (p : PartialHttpReq Method Url) (buffer : Bytes) (n : ℕ) (e : HttpError)
      → take_body lib p buffer n ≡ some (err e)
      → p.content_length < length (drop n buffer)
  unfolding take_body
  take_body-err p buffer n e h = ground arith

  start_finish :
      (p : PartialHttpReq Method Url) (buffer : Bytes) (n : ℕ)
      → n ≤ length buffer
      → IsHeader (take n buffer) p.content_length
      → length (drop n buffer) ≤ p.content_length
      → p.body ≡ resize p.content_length 0 (drop n buffer)
      → p.bytes_read ≡ length buffer - n
      → Follows buffer (some (ok (finish lib p)))
  start_finish p buffer n h header small body count =
      let rest : length (drop n buffer) ≡ length buffer - n = length-drop n buffer in
      let held : take p.bytes_read p.body ≡ drop n buffer =
        ap (take p.bytes_read) body
        ∙ take-resize p.bytes_read p.content_length 0 (drop n buffer) (omega arith) (omega arith)
        ∙ take-all p.bytes_read (drop n buffer) (omega arith) in
      finish-Follows p buffer (take n buffer) header
        (sym (take-append-drop n buffer) ∙ ap (λ b. take n buffer ++ b) (sym held)) (omega arith)
        (ap length body ∙ length-resize p.content_length 0 (drop n buffer))

  start_body-Follows :
      (request : Parsed) (buffer : Bytes) (n : ℕ)
      → n ≤ length buffer
      → lib.parse buffer ≡ complete request n
      → Follows buffer (start_body lib random request buffer n)
  unfolding start_body
  start_body-Follows request buffer n h e = elim (Result-cases (new_request lib random request)) [
    | inl (p, new) ↦ elim (Option-cases (take_body lib p buffer n)) [
      | inl none_e ↦
          rw (new, start_body)
            (rw (none_e, start_body)
              (
                request,
                n,
                e,
                subst (λ k. 2 ^ 63 ≤ k) (new_request_given lib random request p new)
                    (take_body-none p buffer n none_e),
              ))
      | inr (r, some_e) ↦ elim (Result-cases r) [
        | inl (p', ok_e) ↦
            let taken : take_body lib p buffer n ≡ some (ok p') = some_e ∙ ap some ok_e in
            let (small, same, body, count) =
              take_body_lem p p' buffer n (new_request_body request p new) taken in
            rw (new, start_body)
              (rw (taken, start_body)
                (start_finish p' buffer n h
                  (subst (IsHeader (take n buffer))
                    (sym (same ∙ new_request_given lib random request p new))
                    (header_lem buffer request n h e))
                  small body count))
        | inr (e', err_e) ↦
            let taken : take_body lib p buffer n ≡ some (err e') = some_e ∙ ap some err_e in
            rw (new, start_body)
              (rw (taken, start_body)
                (inr (
                  request,
                  n,
                  e,
                  inr (
                      subst (λ k. k < length (drop n buffer))
                        (new_request_given lib random request p new)
                        (take_body-err p buffer n e' taken)),
                )))
      ]
    ]
    | inr (e', new) ↦ rw (new, start_body) (inr (request, n, e, inl new))
  ]

  module _ (library : IsLibrary lib) where
    parse_header-Follows :
        (buf_len : ℕ) (buf : Bytes)
        → buf_len ≤ length buf
        → 2048 ≤ length buf
        → Follows (take buf_len buf) (parse_header lib random buf_len buf)
    unfolding parse_header
    parse_header-Follows buf_len buf h room = elim (Status-cases (lib.parse (take buf_len buf))) [
      | inl (e, failed_e) ↦ rw (failed_e, parse_header) (inl (e, failed_e))
      | inr (inl incomplete_e) ↦ rw (incomplete_e, parse_header) (refl, h, room)
      | inr (inr (request, n, complete_e)) ↦
          rw (complete_e, parse_header)
            (start_body-Follows request (take buf_len buf) n
              (library.within (take buf_len buf) request n complete_e) complete_e)
    ]

    length-grown :
        (buf_len : ℕ) (buf : Bytes)
        → 2048 ≤ length buf
        → length buf ≤ length (grown lib buf_len buf)
    length-grown buf_len buf h = ground (arith, length-resize (length buf * 2) 0 buf)

    take-grown :
        (buf_len : ℕ) (buf : Bytes)
        → buf_len ≤ length buf
        → take buf_len (grown lib buf_len buf) ≡ take buf_len buf
    take-grown buf_len buf h = elim (Bool-cases (ltb (length buf - buf_len) 1024)) [
      | inl e ↦ rw e (take-resize buf_len (length buf * 2) 0 buf h (omega arith))
      | inr e ↦ rw e refl
    ]

    read_header-Follows :
        (received bytes : Bytes) (buf_len : ℕ) (buf : Bytes)
        → bytes ≢ []
        → IsValid received (begin buf_len buf)
        → Fits (begin buf_len buf) bytes
        → Follows (received ++ bytes) (read_header lib random buf_len buf (ok bytes))
    unfolding read_header
    read_header-Follows received [] buf_len buf some_read v h = absurd (some_read refl)
    read_header-Follows received (b ∷ bs) buf_len buf some_read (held, inside, room) h =
        let wide = grown lib buf_len buf in
        let bytes = b ∷ bs in
        let filled = overwrite buf_len bytes wide in
        let size : length filled ≡ length wide = length-overwrite buf_len bytes wide h in
        let longer : length buf ≤ length wide = length-grown buf_len buf room in
        let view : take (buf_len + length bytes) filled ≡ received ++ bytes =
          take-overwrite buf_len bytes wide (omega arith)
          ∙ ap (λ r. r ++ bytes) (take-grown buf_len buf inside ∙ held) in
        subst (λ r. Follows r (parse_header lib random (buf_len + length bytes) filled)) view
          (parse_header-Follows (buf_len + length bytes) filled (omega arith) (omega arith))

    read_body-Follows :
        (received bytes : Bytes) (p : PartialHttpReq Method Url)
        → bytes ≢ []
        → IsValid received (have_header p)
        → Fits (have_header p) bytes
        → Follows (received ++ bytes) (read_tcp_stream lib random (have_header p) (ok bytes))
    unfolding read_tcp_stream read_body
    read_body-Follows received [] p some_read v h = absurd (some_read refl)
    read_body-Follows received (b ∷ bs) p some_read (header, is_header, e, inside, size) h =
        let bytes = b ∷ bs in
        let p' : PartialHttpReq Method Url = record p {
          body = overwrite p.bytes_read bytes p.body;
          bytes_read = p.bytes_read + length bytes;
        } in
        let view : take (p.bytes_read + length bytes) (overwrite p.bytes_read bytes p.body)
            ≡ take p.bytes_read p.body ++ bytes =
          take-overwrite p.bytes_read bytes p.body (omega arith) in
        finish-Follows p' (received ++ bytes) header is_header
          (ap (λ r. r ++ bytes) e
            ∙ append_assoc header (take p.bytes_read p.body) bytes
            ∙ ap (λ b. header ++ b) (sym view))
          (omega arith) (length-overwrite p.bytes_read bytes p.body h ∙ size)

    -- A reader that holds what it has received, and reads at least one byte and no more than it
    -- has offered room for, holds all that has come after it, or completes the request: the bytes
    -- are then a header that httparse has accepted and the whole body, of the length that the last
    -- Content-Length of the header gives, or none without one. It fails only over a header that httparse or the code refuses, or with more
    -- bytes behind it than it gives. It panics only over a header that gives a length of 2 ^ 63 or more.
    pub read_tcp_stream-Follows :
        (r : Reader Method Url) (received bytes : Bytes)
        → bytes ≢ []
        → IsValid received r
        → Fits r bytes
        → Follows (received ++ bytes) (read_tcp_stream lib random r (ok bytes))
    unfolding read_tcp_stream
    read_tcp_stream-Follows (begin buf_len buf) received bytes some_read v h =
        read_header-Follows received bytes buf_len buf some_read v h
    read_tcp_stream-Follows (have_header p) received bytes some_read v h =
        read_body-Follows received bytes p some_read v h
