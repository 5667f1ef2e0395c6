-- ===== src/Inflection.antt =====
-- Grammatical data of Latin words: src/morceus/types.ts and src/morceus/inflection_data_utils.ts.
pub mod Types
pub mod Fields
pub mod Compare
pub mod Merge
pub mod Tags
pub mod Words
pub mod Upos
pub mod Packed
mod Tests
