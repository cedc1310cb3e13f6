-- ===== src/Tests.antt =====
-- Runs of the library on a small file, and the theorems at concrete inputs.
pub mod Runs
pub mod Rewrites
pub mod Lines
pub mod Memories
pub mod Operations
pub mod Moved
pub mod Tools
pub mod Linked
pub mod LinkedCalls
pub mod Links
pub mod Scans
pub mod Threads
