-- ===== src/Worker/Writer/Sent.antt =====
-- What has been written of a response, while its body comes in.
use casket.Base.{
  ℕ, ◌+◌, ◌%◌, ◌≤◌, ◌<◌, ◌≡◌, refl, sym, ap, subst, ◌∙◌, Bool, true, false, Option, none, some,
  List, [], ◌∷◌, ◌++◌, Bytes, ok, length, concat, take, drop, consume, consume-eq-drop,
  take-append-drop, length-append, length-take, append_assoc, append-nil, concat-append, arith,
  usize_mod, add_usize, sub_usize,
}
use casket.Http.{HttpResponse, Receiver, write_header}
use casket.Worker.Writer.{partial, done, Writer, new, take_part, wrote, write_tcp_stream}

-- What the channel of the body holds.
abbrev pub waiting : Option Receiver → Bytes
waiting none = []
waiting (some body) = concat body.parts

take_part_at :
    (parts : List Bytes) (connected : Bool) (buffer : Bytes)
    → let (body', buffer') =
        take_part (some (record { parts = parts; connected = connected })) buffer in
      buffer' ++ waiting body' ≡ buffer ++ concat parts
unfolding take_part
take_part_at [] false buffer = refl
take_part_at [] true buffer = refl
take_part_at (part ∷ parts) connected buffer = append_assoc buffer part (concat parts)

take_part_lem :
    (body : Option Receiver) (buffer : Bytes)
    → let (body', buffer') = take_part body buffer in
      buffer' ++ waiting body' ≡ buffer ++ waiting body
unfolding take_part
take_part_lem none buffer = refl
take_part_lem (some body) buffer = take_part_at body.parts body.connected buffer

module _ {Method Url : Type 0} where
  -- The buffer that `write_tcp_stream` hands to the socket.
  abbrev pub offered : Writer Method Url → Bytes
  offered w = (take_part w.http_resp.resp_body w.buffer).1

  abbrev pub with_body : Writer Method Url → Option Receiver → Writer Method Url
  with_body w body = record w { http_resp = record (w.http_resp) { resp_body = body } }

  -- `Sending r body out w`: the application has given `body` for the response `r` so far, the
  -- socket has taken `out`, and the writer is `w`.
  pub data Sending (r : HttpResponse Method Url) : Bytes → Bytes → Writer Method Url → Type 0 where
    start :
        {body out : Bytes} {w : Writer Method Url}
        → r.resp_body ≡ some (record { parts = []; connected = true })
        → body ≡ []
        → out ≡ []
        → w ≡ new r
        → Sending r body out w
    gives :
        {body out body' : Bytes} {w w' : Writer Method Url}
        → (parts : List Bytes) (part : Bytes) → Sending r body out w
        → w.http_resp.resp_body ≡ some (record { parts = parts; connected = true })
        → body' ≡ body ++ part
        → w' ≡ with_body w (some (record { parts = parts ++ part ∷ []; connected = true }))
        → Sending r body' out w'
    ends :
        {body out : Bytes} {w w' : Writer Method Url}
        → (parts : List Bytes) → Sending r body out w
        → w.http_resp.resp_body ≡ some (record { parts = parts; connected = true })
        → w' ≡ with_body w (some (record { parts = parts; connected = false }))
        → Sending r body out w'
    writes :
        {body out out' : Bytes} {w w' : Writer Method Url}
        → (n : ℕ) → Sending r body out w
        → n ≤ length (offered w)
        → write_tcp_stream w (ok n) ≡ ok (partial w')
        → out' ≡ out ++ take n (offered w)
        → Sending r body out' w'

  pub record IsSent (r : HttpResponse Method Url) (body out : Bytes) (w : Writer Method Url)
      : Type 0 where
    pub all : out ++ (w.buffer ++ waiting w.http_resp.resp_body) ≡ write_header r ++ body
    pub counted : w.bytes_written ≡ length out % usize_mod
    pub header : w.header_size ≡ length (write_header r)

  -- What a write leaves where the response is not done.
  partial_lem :
      (w w' : Writer Method Url) (n : ℕ)
      → write_tcp_stream w (ok n) ≡ ok (partial w')
      → w' ≡ record (with_body w (take_part w.http_resp.resp_body w.buffer).0) {
        buffer = consume n (offered w);
        bytes_written = add_usize w.bytes_written n;
      }
  unfolding write_tcp_stream wrote
  partial_lem w w' n e = ground arith

  done_lem :
      (w : Writer Method Url) (r' : HttpResponse Method Url) (n : ℕ)
      → write_tcp_stream w (ok n) ≡ ok (done r')
      → (consume n (offered w) ≡ [])
        × ((take_part w.http_resp.resp_body w.buffer).0 ≡ none)
        × (r' ≡ record (w.http_resp) {
          resp_body = none;
          resp_content_length = some (sub_usize (add_usize w.bytes_written n) w.header_size);
        })
  unfolding write_tcp_stream wrote
  done_lem w r' n e = ground arith

  new-IsSent :
      (r : HttpResponse Method Url)
      → r.resp_body ≡ some (record { parts = []; connected = true })
      → IsSent r [] [] (new r)
  unfolding new
  new-IsSent r e = record {
    all = ap (λ body. write_header r ++ waiting body) e;
    counted = omega arith;
    header = refl;
  }

  gives-IsSent :
      (r : HttpResponse Method Url) (body out part : Bytes) (parts : List Bytes)
      (w : Writer Method Url)
      → w.http_resp.resp_body ≡ some (record { parts = parts; connected = true })
      → IsSent r body out w
      → IsSent r
          (body ++ part)
          out
          (with_body w (some (record { parts = parts ++ part ∷ []; connected = true })))
  gives-IsSent r body out part parts w e h =
      let was : out ++ (w.buffer ++ concat parts) ≡ write_header r ++ body =
        ap (λ b. out ++ (w.buffer ++ waiting b)) (sym e) ∙ h.all in
      let more : concat (parts ++ part ∷ []) ≡ concat parts ++ part =
        concat-append parts (part ∷ []) ∙ ap (λ b. concat parts ++ b) (append-nil part) in
      record {
        all =
            ap (λ b. out ++ (w.buffer ++ b)) more
            ∙ ap (λ b. out ++ b) (sym (append_assoc w.buffer (concat parts) part))
            ∙ sym (append_assoc out (w.buffer ++ concat parts) part)
            ∙ ap (λ b. b ++ part) was
            ∙ append_assoc (write_header r) body part;
        counted = h.counted;
        header = h.header;
      }

  ends-IsSent :
      (r : HttpResponse Method Url) (body out : Bytes) (parts : List Bytes) (w : Writer Method Url)
      → w.http_resp.resp_body ≡ some (record { parts = parts; connected = true })
      → IsSent r body out w
      → IsSent r body out (with_body w (some (record { parts = parts; connected = false })))
  ends-IsSent r body out parts w e h = record {
    all = ap (λ b. out ++ (w.buffer ++ waiting b)) (sym e) ∙ h.all;
    counted = h.counted;
    header = h.header;
  }

  -- The bytes that a write takes, those left in the buffer and those in the channel.
  offered_split :
      (w : Writer Method Url) (n : ℕ)
      → n ≤ length (offered w)
      → take n (offered w)
          ++ (consume n (offered w) ++ waiting (take_part w.http_resp.resp_body w.buffer).0)
        ≡ w.buffer ++ waiting w.http_resp.resp_body
  offered_split w n h =
      let body = (take_part w.http_resp.resp_body w.buffer).0 in
      ap (λ b. take n (offered w) ++ (b ++ waiting body)) (consume-eq-drop n (offered w) h)
      ∙ sym (append_assoc (take n (offered w)) (drop n (offered w)) (waiting body))
      ∙ ap (λ b. b ++ waiting body) (take-append-drop n (offered w))
      ∙ take_part_lem w.http_resp.resp_body w.buffer

  count_lem :
      (w : Writer Method Url) (out : Bytes) (n : ℕ)
      → w.bytes_written ≡ length out % usize_mod
      → n ≤ length (offered w)
      → add_usize w.bytes_written n ≡ length (out ++ take n (offered w)) % usize_mod
  unfolding add_usize
  count_lem w out n e h =
      omega (arith, length-append out (take n (offered w)), length-take n (offered w))

  writes-IsSent :
      (r : HttpResponse Method Url) (body out : Bytes) (w w' : Writer Method Url) (n : ℕ)
      → n ≤ length (offered w)
      → write_tcp_stream w (ok n) ≡ ok (partial w')
      → IsSent r body out w
      → IsSent r body (out ++ take n (offered w)) w'
  writes-IsSent r body out w w' n h e s =
      subst (IsSent r body (out ++ take n (offered w))) (sym (partial_lem w w' n e)) (record {
        all =
            append_assoc out (take n (offered w))
              (consume n (offered w) ++ waiting (take_part w.http_resp.resp_body w.buffer).0)
            ∙ ap (λ b. out ++ b) (offered_split w n h)
            ∙ s.all;
        counted = count_lem w out n s.counted h;
        header = s.header;
      })

  Sending-IsSent :
      {r : HttpResponse Method Url} {body out : Bytes} {w : Writer Method Url}
      → Sending r body out w
      → IsSent r body out w
  Sending-IsSent {r = r} (start e eb eo ew) = rw (eb, eo, ew) (new-IsSent r e)
  Sending-IsSent {r = r} (gives {body} {out} {body'} {w} {w'} parts part s e eb ew) =
      rw (eb, ew) (gives-IsSent r body out part parts w e (Sending-IsSent s))
  Sending-IsSent {r = r} (ends {body} {out} {w} {w'} parts s e ew) =
      rw ew (ends-IsSent r body out parts w e (Sending-IsSent s))
  Sending-IsSent {r = r} (writes {body} {out} {out'} {w} {w'} n s h e eo) =
      rw eo (writes-IsSent r body out w w' n h e (Sending-IsSent s))

  length_lem :
      (w : Writer Method Url) (header body : Bytes) {written : ℕ}
      → written ≡ length (header ++ body) % usize_mod
      → w.header_size ≡ length header
      → length header + length body < usize_mod
      → sub_usize written w.header_size ≡ length body
  unfolding sub_usize
  length_lem w header body e e' h = omega (arith, length-append header body)

  -- When the writer reports the response as done, the socket has taken the header and then the
  -- whole body that the application gave, nothing is left over, and the content length that is
  -- logged is the body's, if header and body have less than 2 ^ 64 bytes.
  pub done_complete :
      {r r' : HttpResponse Method Url} {body out : Bytes} {w : Writer Method Url} (n : ℕ)
      → Sending r body out w
      → n ≤ length (offered w)
      → write_tcp_stream w (ok n) ≡ ok (done r')
      → length (write_header r) + length body < usize_mod
      → (out ++ take n (offered w) ≡ write_header r ++ body)
        × (r'.resp_content_length ≡ some (length body))
  done_complete {r = r} {body = body} {out = out} {w = w} n s h e small =
      let v = Sending-IsSent s in
      let (left, gone, end) = done_lem w _ n e in
      let rest = (take_part w.http_resp.resp_body w.buffer).0 in
      let empty : consume n (offered w) ++ waiting rest ≡ [] =
        ap (λ b. consume n (offered w) ++ waiting b) gone ∙ ap (λ b. b ++ []) left in
      let all : out ++ take n (offered w) ≡ write_header r ++ body =
        ap (λ b. out ++ b)
          (sym (append-nil (take n (offered w)))
            ∙ ap (λ b. take n (offered w) ++ b) (sym empty)
            ∙ offered_split w n h)
        ∙ v.all in
      (
        all,
        ap (λ r. r.resp_content_length) end
            ∙ ap some (
                length_lem w (write_header r) body
                  (count_lem w out n v.counted h ∙ ap (λ b. length b % usize_mod) all) v.header
                  small),
      )
