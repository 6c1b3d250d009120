-- ===== src/EventStream.antt =====
-- podagent/event_stream.py: the durable, ordered channel to the control plane. The functions of
-- this module's children are the critical sections of `class EventStream`; what the disk answers
-- to a durable write is an argument (`true`: the write succeeds).
pub mod Frame
pub mod State
pub mod Append
pub mod Settle
pub mod Intake
pub mod Connection
pub mod Restart
pub mod Invariant
pub mod Sound
pub mod Moves
pub mod Keep
pub mod KeepAppend
pub mod KeepRelease
pub mod KeepAcked
pub mod KeepSettle
pub mod KeepIntake
pub mod KeepConnection
pub mod Crash
pub mod History
pub mod Accounting
pub mod Conservation
pub mod Closed
pub mod ClosedSteps
pub mod ClosedLife
pub mod Handout
pub mod Recovery
pub mod Receipts
mod Tests
