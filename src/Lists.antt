-- ===== src/Lists.antt =====
-- The linked lists of src/belle_sip_utils.c. Values has each function on the list of the data, Nodes
-- those that work on the links as they stand in memory.
pub mod Values
pub mod Sorted
pub mod Nodes
pub mod Links
pub mod Removal
pub mod Appending
pub mod Keyed
