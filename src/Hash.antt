-- ===== src/Hash.antt =====
-- The hash tables of DataStructure/CPP/hash_table.
pub mod Probing
