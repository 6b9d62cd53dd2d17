-- ===== src/Errors.antt =====
-- src/errors.rs.
use casket.Base.{Bytes, codes, ◌++◌}

-- An I/O error is its `Display` text.
pub data RuntimeError : Type 0 where
  io : Bytes → Bytes → RuntimeError
  python_threads_died fork_failed unknown_token : RuntimeError

unfoldable pub reason : RuntimeError → Bytes
reason (io why e) = why ++ (codes " - " ++ e)
reason python_threads_died = codes "python worker threads stopped"
reason fork_failed = codes "fork failed"
reason unknown_token = codes "unknown token"

unfoldable pub fatal_io_error : Bytes → Bytes → RuntimeError
fatal_io_error why e = io why e
