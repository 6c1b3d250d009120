-- ===== src/OpRunner.antt =====
-- podagent/ops/runner.py, podagent/ops/registry.py, and the envelope of a chain of ops in
-- podagent/models.py.
pub mod Envelope
pub mod Steps
pub mod Dag
pub mod Sound
pub mod Registry
pub mod Binding
pub mod Preflight
pub mod HandOff
pub mod Schedule
pub mod Dropping
pub mod Completing
pub mod Progress
pub mod Drain
pub mod Unput
pub mod Waiting
pub mod Terminal
mod Tests
mod DrainTests
