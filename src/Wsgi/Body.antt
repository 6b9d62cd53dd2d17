-- ===== src/Wsgi/Body.antt =====
-- The body of a response, and the response to an error.
use casket.Base.{
  suc, ◌≡◌, refl, ap, ◌∙◌, none, some, List, [], ◌∷◌, Bytes, ok, err, length, false, arith,
}
use casket.Config.{Config}
use casket.Wsgi.{
  Chunks, BytesIter, next_body_chunk, new_iter, next, stream_body, ExecError, handle_wsgi_exec_err,
}

-- The chunks that the application's iterator yields.
abbrev pub yielded : Chunks → List Bytes
yielded [] = []
yielded (ok chunk ∷ rest) = chunk ∷ yielded rest
yielded (err e ∷ rest) = yielded rest

pub stream_body_lem :
    (chunks : Chunks) (chunk : Bytes)
    → stream_body
        (suc (suc (length chunks)))
        (record { next_val = some chunk; bytes_iter = chunks })
      ≡ some (chunk ∷ yielded chunks)
unfolding stream_body next next_body_chunk
stream_body_lem [] chunk = refl
stream_body_lem (ok c ∷ rest) chunk =
    ap (λ o. elim o [ none ↦ none | some cs ↦ some (chunk ∷ cs) ]) (stream_body_lem rest c)
stream_body_lem (err e ∷ rest) chunk = stream_body_lem rest chunk

-- Once an application's iterator has yielded its first chunk or ended, the loop sends every chunk
-- that it yields, in order and each once, passes over what it raises, and comes to its end in one
-- round more than there are chunks and errors.
pub stream_body-yielded :
    (chunks : Chunks) (s : BytesIter)
    → new_iter chunks ≡ ok s
    → stream_body (suc (length chunks)) s ≡ some (yielded chunks)
unfolding new_iter next_body_chunk stream_body next
stream_body-yielded [] s h =
    let e : s ≡ record { next_val = none; bytes_iter = [] } = ground arith in ap (stream_body 1) e
stream_body-yielded (ok c ∷ rest) s h =
    let e : s ≡ record { next_val = some c; bytes_iter = rest } = ground arith in
    ap (stream_body (suc (suc (length rest)))) e ∙ stream_body_lem rest c
stream_body-yielded (err x ∷ rest) s h = ground arith

-- Without CASKET_RETURN_STACKTRACE_IN_BODY, the response to an error is one and the same: nothing of
-- the traceback or of the error's text gets out.
pub handle_wsgi_exec_err_same :
    (cfg : Config) (e e' : ExecError)
    → cfg.body_stacktrace ≡ false
    → handle_wsgi_exec_err cfg e ≡ handle_wsgi_exec_err cfg e'
unfolding handle_wsgi_exec_err
handle_wsgi_exec_err_same cfg e e' h = ground arith
