-- ===== src/LockFreeMap.antt =====
-- task04-concurrency/src/lockfreehashmap.c: the hash map without locks.
pub mod Bucket
pub mod Chain
pub mod Grow
pub mod Steps
pub mod Runs
mod Tests
