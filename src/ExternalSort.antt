-- ===== src/ExternalSort.antt =====
-- task00-sort/src/sort.cpp: the external sort of lines.
pub mod Order
pub mod Files
pub mod Queue
pub mod Lines
pub mod Program
pub mod Sorting
pub mod Merging
pub mod Chunks
pub mod Whole
mod Tests
