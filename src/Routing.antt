-- ===== src/Routing.antt =====
-- What the client reads from and writes to URLs: src/web/client/router/paths.ts and
-- src/web/client/pages/corpus/corpus_router.ts.
pub mod Records
pub mod Paths
pub mod PageData
mod Tests
