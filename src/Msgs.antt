-- ===== src/Msgs.antt =====
-- src/msgs/mod.rs: the messages between the server and its workers, over a unix socket that
-- carries bytes and, beside them, file descriptors.
-- The socket (fd_queue) and the byte format of a message (bincode) are not the repository's: an
-- operation takes what the socket answers and the format as arguments.
pub mod Wire
pub mod Scan
pub mod Receive
pub mod ServerBuffer
pub mod WorkerBuffer
pub mod Requests
pub mod Example
pub mod Tests
