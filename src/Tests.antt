-- ===== src/Tests.antt =====
-- The theorems at concrete inputs, and the code on small runs.
pub mod Requests
pub mod Agent
pub mod Tables
pub mod Wire
pub mod Started
pub mod Stream
pub mod Service
pub mod Sharing
pub mod Pointers
pub mod Threads
pub mod Lost
