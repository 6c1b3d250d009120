-- ===== src/Agent.antt =====
-- podagent/main.py: the loop that claims jobs and hands them to the pools, the latches that stop it, and
-- the drain and the guard before a restart.
pub mod Coordinator
pub mod Labels
pub mod Drained
pub mod Flips
pub mod Hourly
pub mod Dispatch
pub mod Loop
pub mod Claims
pub mod Refusal
pub mod Caps
pub mod Ending
pub mod Stopped
mod Tests
