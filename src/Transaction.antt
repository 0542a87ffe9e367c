-- ===== src/Transaction.antt =====
-- src/transaction.c and the four transaction machines src/ict.c, src/ist.c, src/nict.c, src/nist.c.
pub mod Base
pub mod Client
pub mod Ict
pub mod Nict
pub mod Server
pub mod Ist
pub mod Nist
