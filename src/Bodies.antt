-- ===== src/Bodies.antt =====
-- src/bodyhandler.c: what gives the body of a message to a channel, piece by piece, and takes it.
pub mod Memory
pub mod Multipart
pub mod Pieces
pub mod Advance
pub mod Whole
pub mod Again
pub mod Exchange
