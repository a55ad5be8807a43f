-- ===== src/Memory.antt =====
-- vm/memory.c: exchanging the identities of objects, and the static roots.
pub mod Collector
pub mod Collection
pub mod Exchange
pub mod StaticRoots
pub mod Tests
