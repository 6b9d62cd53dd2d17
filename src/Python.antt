-- ===== src/Python.antt =====
-- What src/pythonexec uses of the pyo3 library: errors as values, and a Python application as what
-- it does when it is called.
use casket.Base.{ℕ, Bool, Option, none, List, Bytes, Result}

-- `PyErr`: its traceback, if it has one, which may fail to format, and its value as a text.
pub record PyErr : Type 0 where
  pub traceback : Option (Result (Unit {0}) Bytes)
  pub value : Bytes

-- `PyValueError::new_err` and its like.
abbrev pub new_err : Bytes → PyErr
new_err text = record { traceback = none; value = text }

pub data ℤ : Type 0 where
  pos negsuc : ℕ → ℤ

-- A string that `to_str` cannot give as UTF-8 is its error; the text is that of `to_string`.
pub record PyString : Type 0 where
  pub to_str : Result PyErr Bytes
  pub to_string : Bytes

-- An object as what the code's tests of it give. An error is that of the failed conversion.
pub record PyAny : Type 0 where
  pub as_string : Result PyErr PyString
  pub as_bool : Option Bool
  pub as_i64 : Option ℤ

-- An entry of the list that `start_response` takes: a tuple, or the error of an object that is none.
abbrev pub PyHeader : Type 0
PyHeader = Result PyErr (List PyAny)
