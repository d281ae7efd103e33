-- ===== src/Flag.antt =====
-- src/flag.c: bit fields.
pub mod Defs
pub mod Bits
pub mod Sets
pub mod Invariant
pub mod Names
