-- ===== src/Loop.antt =====
-- The main loop of src/belle_sip_loop.c.
pub mod Sources
pub mod Iterate
pub mod Waiting
pub mod Notified
pub mod Iteration
pub mod Drift
pub mod Invariant
