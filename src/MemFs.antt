-- ===== src/MemFs.antt =====
-- task02-fileio/src: the in-memory filesystem.
pub mod Bytes
pub mod Inode
pub mod Calls
pub mod Log
pub mod LogNumbers
pub mod LogText
pub mod Lookup
pub mod Paths
pub mod Create
pub mod Tree
pub mod RoundTrip
pub mod Made
pub mod Replace
pub mod Slices
pub mod Write
pub mod ReadBack
pub mod Steps
pub mod Laws
pub mod Listing
pub mod Effects
mod LogTests
mod Tests
