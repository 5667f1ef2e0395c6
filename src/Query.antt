-- ===== src/Query.antt =====
-- The search box of the corpus: src/web/client/pages/corpus/autocomplete.
pub mod Tokens
pub mod Transitions
mod Tests
