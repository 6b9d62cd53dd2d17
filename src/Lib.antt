-- ===== src/Lib.antt =====
-- Casket, a WSGI gateway in Rust: one server process, which accepts the clients' streams, and
-- workers, which read requests, run the Python application in threads and write the responses.
-- The server hands a stream to a worker as a descriptor over a unix socket, and the worker
-- gives it back by a message.
-- Files (paths from the repository's root):
--   Workq: src/workq.rs, the queue from a worker to its Python threads (new, new_recv, send).
--   Msgs: src/msgs/mod.rs. ServerBuffer is ServerMsgBuffer and WorkerBuffer is
--     WorkerMsgBuffer, method by method; Scan and Receive are the loop and the buffer
--     handling that the two read_unix_stream share; Wire has the messages and frames.
--     Requests puts the two ends together over a socket, as a step relation.
--   Errors: src/errors.rs.
--   Config: src/config.rs, with the standard library's parsers of numbers and addresses.
--   Server: src/server/mod.rs, run_server and shutdown, as rounds (run_turn) over what the
--     system answers (Turn). Server.Streams is src/server/unixstreams.rs.
--   Http: src/http/mod.rs, with the types that the worker's parts share.
--   Wsgi: src/pythonexec/wsgi.rs. Wsgi itself has wsgi.input, BytesIter, handle_wsgi_exec_err
--     and the loop of run in src/pythonexec/mod.rs that sends a body; Wsgi.Environ is
--     build_environ, Wsgi.StartResponse the callable of that name with parse_status,
--     Wsgi.ErrorStream wsgi.errors, and Wsgi.Execute execute and execute_inner.
--   PythonExec: src/pythonexec/mod.rs, spawn, run and Application::load. ReqLocal is
--     src/pythonexec/reqlocal.rs and Logger src/pythonexec/logger.rs; Python has what they
--     use of pyo3.
--   Main: src/main.rs, main, run and ctrlc_handler.
--   Worker: src/worker/mod.rs, handle_action, handle_error and the event handlers, and
--     Worker.Loop the loop of run_worker, as rounds (run_turn) over what the system and the
--     threads answer (Turn), with run_worker from the start over a list of them.
--     Worker.Reader is src/worker/serverreader.rs (Worker.Reader.Traceparent its
--     parse_context), Worker.Writer src/worker/serverwriter.rs, Worker.Poller
--     src/worker/poller.rs, Worker.PythonThreads src/worker/pythonthreads.rs, Worker.Actions
--     src/worker/actions.rs and Worker.Events src/worker/events.rs.
-- Numbers: usize has 64 bits, and sums and differences of usize wrap as in a release build. A
-- token, a descriptor and a byte are numbers.
-- Fuel: the scan of a buffer takes one round more than the buffer has bytes, and each round
-- takes a byte or more; send takes as many rounds as there are senders, and each removes one;
-- the loops that drain a stream's tokens take one round more than there are tokens, and
-- take_streams one more than there are descriptors. readlines is given as many rounds as one
-- likes, since the code has no bound, and stream_body one more than the iterator has chunks and
-- errors. The theorems show the results that the fuel gives to be the code's.
-- Parameters: bincode is a Format, with the documented round trip and sizes as hypotheses
-- (IsRequestFormat, IsResponseFormat); Msgs.Example is a format that meets them. What a socket,
-- the registry of mio and the clock answer are arguments.
-- What httparse and http_types parse is a Library, of which the theorems ask only that a header
-- is no longer than the bytes it was found in (IsLibrary). The Python threads' channels are
-- arguments.
-- A Python application is what it does when it is called (Wsgi.Execute.Call): it calls
-- start_response, the loggers and wsgi.errors, goes on with what they answer, and raises, gives
-- an iterator, or never comes to an end; the iterator is the list of what its calls of next
-- will give, and whether it ends behind them. A thread that is kept busy for ever by either
-- gives none, and what it sends meanwhile is not followed. The interpreter that loads it, and
-- the answers of fork and of the file system, are arguments.
-- Not modelled: the lines that Casket itself logs but for those of an application's error, and
-- the calls that an application makes while its body is iterated over. Their effect on the
-- thread's variables is gone before anything reads them.
pub mod Base
pub mod Workq
pub mod Msgs
pub mod Errors
pub mod Config
pub mod Server
pub mod Http
pub mod Worker
pub mod Python
pub mod ReqLocal
pub mod Logger
pub mod Wsgi
pub mod PythonExec
pub mod Main
