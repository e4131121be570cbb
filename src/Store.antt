-- ===== src/Store.antt =====
-- store/ and testcms/memorystore.go: what an object store promises (Defs), the idempotent delete
-- (Helpers), and the in-memory store (Memory).
pub mod Defs
pub mod Helpers
pub mod Memory
pub mod Gcs
mod Tests
