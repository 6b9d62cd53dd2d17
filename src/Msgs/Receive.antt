-- ===== src/Msgs/Receive.antt =====
-- What both `read_unix_stream` do once the socket has answered: take the messages that are whole,
-- and move what is left to the front of the buffer.
use casket.Base.{
  ℕ, ◌+◌, ◌-◌, ◌≤◌, ◌≡◌, refl, sym, ◌∙◌, ap, Option, none, some, List, ◌++◌, append_assoc, arith,
  Bytes, length, take, drop, overwrite, All, length-take, take-overwrite, length-overwrite,
  shift_down, take-shift_down, length-shift_down, drop-take, subst,
}
use casket.Msgs.Scan.{scan, IsFraming, wire, IsShort, scan-Scans}

-- `buffer` holds `len` bytes, and the socket has written `bytes` behind them. The result: the
-- messages, the buffer and the number of bytes that it holds now.
unfoldable pub receive :
    {M : Type 0}
    → ℕ
    → (Bytes → Option ℕ)
    → (Bytes → Option M)
    → Bytes
    → ℕ
    → Bytes
    → Option (List M × Bytes × ℕ)
unfolding scan
receive header size_of decode buffer len bytes =
    let filled = overwrite len bytes buffer in
    let total = len + length bytes in
    elim (scan header size_of decode total (take total filled)) [
      | none ↦ none
      | some (ms, n) ↦ some (ms, shift_down (total - n) n filled, total - n)
    ]

module _ {M : Type 0} {header : ℕ} {size_of : Bytes → Option ℕ} {decode : Bytes → Option M}
    {frame : M → Bytes} {IsSendable : M → Type 0}
    (framing : IsFraming header size_of decode frame IsSendable) where
  -- Of the messages `ms`, what `buffer` held and `bytes` have come in, `q` has not.
  abbrev pub Receives : List M → Bytes → Bytes → Option (List M × Bytes × ℕ) → Type 0
  Receives ms buffer q r =
      (got left : List M) × (buffer' : Bytes) × (len : ℕ) × (r ≡ some (got, buffer', len))
      × (ms ≡ got ++ left)
      × (take len buffer' ++ q ≡ wire framing left)
      × IsShort framing left (take len buffer')
      × (length buffer' ≡ length buffer)
      × (len ≤ length buffer)

  pub receive-Receives :
      (ms : List M) (buffer : Bytes) (len : ℕ) (bytes q : Bytes)
      → All IsSendable ms
      → len + length bytes ≤ length buffer
      → take len buffer ++ (bytes ++ q) ≡ wire framing ms
      → Receives ms buffer q (receive header size_of decode buffer len bytes)
  unfolding receive
  receive-Receives ms buffer len bytes q s h e =
      let filled = overwrite len bytes buffer in
      let total = len + length bytes in
      let view : take total filled ≡ take len buffer ++ bytes =
        take-overwrite len bytes buffer (omega arith) in
      let size = length-overwrite len bytes buffer h in
      let (got, left, n, r, split, inside, rest, short) =
        scan-Scans framing ms (take total filled) q total s
          (ap (λ b. b ++ q) view ∙ append_assoc (take len buffer) bytes q ∙ e)
          (omega (arith, length-take total filled)) in
      let fits : n ≤ total = omega (arith, length-take total filled) in
      let moved : take (total - n) (shift_down (total - n) n filled) ≡ drop n (take total filled) =
        take-shift_down (total - n) n filled (omega arith) ∙ sym (drop-take n total filled fits) in
      (
        got,
        left,
        shift_down (total - n) n filled,
        total - n,
        rw (r, receive) refl,
        split,
        ap (λ b. b ++ q) moved ∙ rest,
        subst (IsShort framing left) (sym moved) short,
        length-shift_down (total - n) n filled ∙ size,
        omega arith,
      )
