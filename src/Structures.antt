-- ===== src/Structures.antt =====
-- Small self-contained parts: src/morceus/numerals/roman_numerals.ts and
-- src/common/data_structures (trie.ts and collect_map.ts).
pub mod Roman
pub mod Trie
pub mod ArrayMap
mod Tests
