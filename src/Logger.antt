-- ===== src/Logger.antt =====
-- src/pythonexec/logger.rs: the log functions that an application calls.
-- A dictionary of tags is the list of its entries; a line of the log is its level, message and
-- entries, whose output is the logging library's.
use casket.Base.{Bool, Option, none, some, List, [], ◌∷◌, ◌++◌, Bytes, codes, Result, ok, err}
use casket.Http.{Context}
use casket.Python.{ℤ, PyAny, PyErr, new_err}
use casket.ReqLocal.{ReqLocal, get_context}

pub data Level : Type 0 where
  level_info level_warn level_error : Level

pub data Atom : Type 0 where
  string : Bytes → Atom
  bool : Bool → Atom
  int : ℤ → Atom

pub record Entry : Type 0 where
  pub key : Bytes
  pub value : Atom

pub record Line : Type 0 where
  pub level : Level
  pub message : Bytes
  pub entries : List Entry

abbrev pub Tags : Type 0
Tags = List (PyAny × PyAny)

unfoldable pub get_value : PyAny → Result PyErr Atom
get_value v = elim v.as_string [
  | ok s ↦ elim s.to_str [ ok text ↦ ok (string text) | err e ↦ err e ]
  | err _ ↦ elim v.as_bool [
    | some b ↦ ok (bool b)
    | none ↦ elim v.as_i64 [
      | some n ↦ ok (int n)
      | none ↦ err (new_err (codes "bad type in log tags value"))
    ]
  ]
]

-- One round of the loop over the tags.
unfoldable pub get_entry : PyAny × PyAny → Result PyErr Entry
unfolding get_value
get_entry (k, v) = elim k.as_string [
  | err e ↦ err e
  | ok name ↦ elim (get_value v) [
    | err e ↦ err e
    | ok value ↦ elim name.to_str [
      | err e ↦ err e
      | ok key ↦ ok (record { key = key; value = value })
    ]
  ]
]

unfoldable pub get_entries : Tags → Result PyErr (List Entry)
unfolding get_entry
get_entries [] = ok []
get_entries (tag ∷ tags) = elim (get_entry tag) [
  | err e ↦ err e
  | ok entry ↦ elim (get_entries tags) [ err e ↦ err e | ok entries ↦ ok (entry ∷ entries) ]
]

abbrev text_entry : Bytes → Bytes → Entry
text_entry key text = record { key = key; value = string text }

unfoldable pub context_entries : Option Context → List Entry
context_entries none = []
context_entries (some ctx) =
    text_entry (codes "trace_id") ctx.trace_id
    ∷ text_entry (codes "span_id") ctx.span_id
    ∷ elim ctx.parent_id [
      | none ↦ []
      | some parent_id ↦ text_entry (codes "parent_id") parent_id ∷ []
    ]

unfoldable pub log : Level → Bytes → Tags → ReqLocal → Result PyErr Line
unfolding get_entries context_entries
log level message tags s = elim (get_entries tags) [
  | err e ↦ err e
  | ok entries ↦ ok (record {
    level = level;
    message = message;
    entries = entries ++ context_entries (get_context s);
  })
]

abbrev unwrap_or_new : Option Tags → Tags
unwrap_or_new none = []
unwrap_or_new (some tags) = tags

unfoldable pub info : Bytes → Option Tags → ReqLocal → Result PyErr Line
info message tags = log level_info message (unwrap_or_new tags)

unfoldable pub warn : Bytes → Option Tags → ReqLocal → Result PyErr Line
warn message tags = log level_warn message (unwrap_or_new tags)

unfoldable pub error : Bytes → Option Tags → ReqLocal → Result PyErr Line
error message tags = log level_error message (unwrap_or_new tags)
