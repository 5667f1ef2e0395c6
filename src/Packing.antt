-- ===== src/Packing.antt =====
-- Binary packing: src/common/bytedata/packing.ts.
pub mod Buffers
pub mod Stream
pub mod Numbers
mod Tests
