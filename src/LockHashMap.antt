-- ===== src/LockHashMap.antt =====
-- task04-concurrency/src: the hash map with a spinlock per bucket.
pub mod Spinlock
pub mod Bucket
pub mod Table
pub mod Spec
pub mod Exclusion
pub mod Linear
pub mod Runs
pub mod Acted
pub mod Alone
pub mod Counts
pub mod Bag
mod Tests
