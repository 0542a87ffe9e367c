-- ===== src/Dialog.antt =====
-- A SIP dialog, src/dialog.c: its data, its establishment and its update by a transaction.
pub mod Defs
pub mod Update
pub mod Requests
pub mod Invariant
pub mod Acks
pub mod Peers
pub mod Sequence
pub mod Queue
