-- ===== src/Allocator.antt =====
-- task05-memory/src/allocator.c.
pub mod Heap
pub mod Ops
pub mod Api
pub mod Model
pub mod FirstFit
pub mod Carve
pub mod Live
pub mod Layout
pub mod Sound
pub mod Refine
pub mod Resize
pub mod Tests
