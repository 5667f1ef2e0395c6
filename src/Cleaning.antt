-- ===== src/Cleaning.antt =====
-- Texts cut into words and what stands between them: src/common/text_cleaning.ts.
pub mod Tokens
mod Tests
