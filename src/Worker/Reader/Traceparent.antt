-- ===== src/Worker/Reader/Traceparent.antt =====
-- `parse_context`: the traceparent header.
use casket.Base.{
  ℕ, zero, suc, Bool, true, not, ◌&&◌, List, [], ◌∷◌, Bytes, codes, Result, ok, err, if◌then◌else◌,
  eq_bytes, split, length, ◌==◌, leb, ◌||◌,
}
use casket.Http.{Context, from_vals}

-- The loop over the parts from number `n` on, with what was found before.
unfoldable pub scan_parts : ℕ → Bytes → Bytes → List Bytes → Result Bytes (Bytes × Bytes)
scan_parts n trace_id parent_id [] = ok (trace_id, parent_id)
scan_parts zero trace_id parent_id (v ∷ parts) =
    let rest = scan_parts 1 trace_id parent_id parts in
    if eq_bytes v (codes "00") then rest else err (codes "unsupported traceparent version")
scan_parts (suc zero) trace_id parent_id (v ∷ parts) = scan_parts 2 v parent_id parts
scan_parts (suc (suc zero)) trace_id parent_id (v ∷ parts) = scan_parts 3 trace_id v parts
scan_parts (suc (suc (suc zero))) trace_id parent_id (v ∷ parts) =
    scan_parts 4 trace_id parent_id parts
scan_parts (suc (suc (suc (suc n)))) trace_id parent_id (v ∷ parts) =
    err (codes "traceparent header should have four parts")

abbrev pub is_hex_char : ℕ → Bool
is_hex_char c = (leb b'0' c && leb c b'9') || (leb b'a' c && leb c b'f')

abbrev pub is_hex : Bytes → Bool
is_hex [] = true
is_hex (c ∷ cs) = is_hex_char c && is_hex cs

abbrev pub check_ids : Bytes → Bytes → Bytes → Result Bytes Context
check_ids span_id trace_id parent_id =
    if not (length trace_id == 32) || not (length parent_id == 16)
    then err (codes "badly formed traceparent header")
    else if not (is_hex trace_id)
    then err (codes "trace_id is not a hexstring")
    else if not (is_hex parent_id)
    then err (codes "parent_id is not a hexstring")
    else ok (from_vals span_id trace_id parent_id)

-- `span_id` are the eight random bytes.
unfoldable pub parse_context : Bytes → Bytes → Result Bytes Context
unfolding scan_parts
parse_context span_id val =
    let (first, rest) = split b'-' val in
    elim (scan_parts 0 [] [] (first ∷ rest)) [
      | err e ↦ err e
      | ok (trace_id, parent_id) ↦ check_ids span_id trace_id parent_id
    ]
