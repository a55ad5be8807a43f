-- ===== src/Primitives.antt =====
-- Primitives of vm/interp.c: `bulkReplace` (38) and the arithmetic of small integers.
pub mod BulkReplace
pub mod Arithmetic
pub mod Tests
