-- ===== src/Str.antt =====
-- src/str.c, a child module for each family of functions.
pub mod Compare
pub mod Args
pub mod Colors
pub mod Lines
pub mod Numbers
pub mod Replace
pub mod Fill
