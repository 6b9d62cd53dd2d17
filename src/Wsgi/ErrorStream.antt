-- ===== src/Wsgi/ErrorStream.antt =====
-- src/pythonexec/wsgi.rs: `wsgi.errors`, the stream of an application's errors.
-- Each text goes to the log as a line of its own.
use casket.Base.{List, [], ◌∷◌, Bytes, Result, ok, err}
use casket.Python.{PyAny, PyErr}

-- `WsgiError::write`: the texts that go to the log.
unfoldable pub write : Bytes → List Bytes
write error = error ∷ []

-- The text of one line, which an iterator gives or raises.
unfoldable pub line_text : Result PyErr PyAny → Result PyErr Bytes
line_text (err e) = err e
line_text (ok line) = elim line.as_string [ err e ↦ err e | ok s ↦ s.to_str ]

-- The loop of `writelines`. What has been written stays written where a line fails.
unfoldable pub write_each : List (Result PyErr PyAny) → List Bytes × Result PyErr (Unit {0})
unfolding line_text
write_each [] = ([], ok tt)
write_each (line ∷ lines) =
    let (texts, result) = write_each lines in
    elim (line_text line) [ err e ↦ ([], err e) | ok text ↦ (text ∷ texts, result) ]

-- `WsgiError::writelines`, of an object that gives its iterator or is not iterable.
unfoldable pub writelines :
    Result PyErr (List (Result PyErr PyAny)) → List Bytes × Result PyErr (Unit {0})
unfolding write_each
writelines (err e) = ([], err e)
writelines (ok lines) = write_each lines
