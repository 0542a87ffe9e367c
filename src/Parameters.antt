-- ===== src/Parameters.antt =====
-- src/belle_sip_parameters.c: the parameters of a header or a URI.
pub mod Defs
pub mod Lookup
pub mod Printing
pub mod Parsing
