-- ===== src/Provider.antt =====
-- src/provider.c: the tables of transactions, and how a message finds its transaction.
pub mod Table
pub mod Dispatch
pub mod Routing
pub mod Responses
pub mod Acks
