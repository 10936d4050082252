-- ===== src/Hygiene.antt =====
-- packages/shared/src/utils: the hygiene of filters and of the states of source searches.
pub mod SearchStates
pub mod Groups
pub mod Preserved
pub mod Successors
pub mod Overlap
pub mod Symmetry
pub mod Duplicates
mod Examples
