-- ===== src/Image.antt =====
-- Image files (vm/image.c): the version header, tags, and objects written in depth-first order.
pub mod Tag
pub mod Header
pub mod Graph
pub mod Dump
pub mod Files
pub mod Tests
