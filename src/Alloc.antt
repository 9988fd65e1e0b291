-- ===== src/Alloc.antt =====
-- include/salgo/_/alloc: allocators.
pub mod Array
pub mod Crude
pub mod Random
