-- ===== src/DeadStores.antt =====
-- task07-llvm/dead-code-elimination/src/DeadCodeElimination.cpp: the stores that are removed.
pub mod Pass
pub mod Slot
pub mod Block
mod Tests
