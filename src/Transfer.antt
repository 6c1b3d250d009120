-- ===== src/Transfer.antt =====
-- podagent/cp.py: moving files between the pod and the store. Bytes and seconds are whole numbers.
pub mod Ranges
pub mod Download
pub mod Integrity
pub mod Whole
pub mod Ranged
pub mod Placed
pub mod Assembly
pub mod Served
mod Tests
mod PartTests
