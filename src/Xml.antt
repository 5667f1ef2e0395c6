-- ===== src/Xml.antt =====
-- XML trees: src/common/xml.
pub mod Nodes
pub mod Serialization
mod Tests
