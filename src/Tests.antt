-- ===== src/Tests.antt =====
-- Runs of the code on small inputs, and the theorems at concrete inputs.
pub mod Chunks
pub mod Graphs
pub mod Holes
pub mod Lists
pub mod Sets
pub mod Storage
pub mod Tables
pub mod Trees
pub mod Spaces
pub mod FullMeshes
pub mod Meshes
pub mod Numbers
pub mod Random
