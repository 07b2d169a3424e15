-- ===== src/MemorySafety.antt =====
-- task07-llvm/memory-safety/src/MemorySafetyRuntime.cpp: the checks at run time.
pub mod Runtime
pub mod Layout
pub mod Checks
pub mod Register
pub mod Free
mod Tests
