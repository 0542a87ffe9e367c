-- ===== src/Objects.antt =====
-- The data that src/belle_sip_object.c keeps with an object, and src/belle_sip_dict.c on top of it.
pub mod Store
pub mod Lookup
pub mod Ownership
pub mod Dict
