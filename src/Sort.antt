-- ===== src/Sort.antt =====
-- The sorts of Algorithms/CPP/Sorting/Sequential.
pub mod Array
pub mod Range
pub mod Quick
pub mod Bubble
pub mod Merge
