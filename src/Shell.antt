-- ===== src/Shell.antt =====
-- task03-processes/src: the shell's pipelines (execute.c) and its main loop (main.c).
pub mod Descriptors
pub mod Execute
pub mod Redirect
pub mod Wiring
pub mod Child
pub mod Spawn
pub mod Started
pub mod Status
pub mod Pipelines
pub mod Overflow
pub mod Session
pub mod Consistent
pub mod Sessions
mod Tests
