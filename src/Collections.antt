-- ===== src/Collections.antt =====
-- Rust's `BTreeSet<u32>` and `BTreeMap<u32, V>`, as lists in ascending order of their keys.
pub mod Sets
pub mod Maps
pub mod Tables
