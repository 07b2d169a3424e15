-- ===== src/Allocator/Refine.antt =====
-- The pointer code of task05-memory/src/allocator.c against the lists of blocks of `Model`.
pub mod Returns
pub mod Linked
pub mod Frame
pub mod Split
pub mod Write
pub mod Coalesce
pub mod Free
pub mod Context
pub mod Search
pub mod Malloc
pub mod Extend
pub mod Arena
pub mod Calls
pub mod Insert
pub mod Resized
pub mod Realloc
