-- ===== src/Text.antt =====
-- The strings of src/belle_sip_utils.c: percent escapes and backslashes.
pub mod Buffer
pub mod Noescapes
pub mod Escape
pub mod EscapeBounds
pub mod EscapeOverflow
pub mod Unescape
pub mod Backslash
