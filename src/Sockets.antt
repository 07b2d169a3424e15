-- ===== src/Sockets.antt =====
-- task06-sockets/src: messages on a connection, the server's workers and the clients.
pub mod Wire
pub mod Framing
pub mod Programs
pub mod Exchange
pub mod Worker
pub mod Rounds
mod Tests
