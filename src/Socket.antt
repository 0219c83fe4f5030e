-- ===== src/Socket.antt =====
-- src/sockutil.c: the two circular buffers between the program and the socket.
mod Memory
pub mod Write
pub mod Read
pub mod Line
