-- ===== src/Crunch.antt =====
-- The analysis of word forms: src/morceus/crunch.ts and what it is built on.
pub mod Types
pub mod Endings
pub mod Exact
pub mod Spellings
pub mod Clusters
pub mod Words
pub mod Lengths
pub mod Decompose
mod Tests
