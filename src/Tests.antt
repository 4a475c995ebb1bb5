-- ===== src/Tests.antt =====
-- The theorems at concrete inputs, with concrete functions for the code that is foreign.
pub mod Codec
pub mod Matcher
pub mod Machine
pub mod Docstore
pub mod Entity
pub mod Locks
pub mod Output
pub mod Chunking
pub mod Debouncing
pub mod Logs
pub mod Settings
pub mod Processes
pub mod Tasks
