-- ===== src/Dtd.antt =====
-- The DTD: crates/xenolith/src/dtd.
pub mod Content
