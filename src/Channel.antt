-- ===== src/Channel.antt =====
-- src/channel.c: how the body of a message is collected, how a channel gets to its peer, and how
-- messages are sent.
pub mod Stream
pub mod Body
pub mod Output
pub mod Sending
pub mod Queue
pub mod Blocking
pub mod Connection
pub mod Life
pub mod Moves
pub mod Safety
pub mod Anytime
pub mod Attempts
