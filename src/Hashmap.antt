-- ===== src/Hashmap.antt =====
-- src/hashmap.c: a hash table with double hashing.
pub mod Defs
pub mod Probe
pub mod Search
pub mod Invariant
pub mod Route
pub mod Write
pub mod Laws
pub mod Remove
pub mod Outside
