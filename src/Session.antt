-- ===== src/Session.antt =====
-- crates/teap/src/session.rs: the Phase-2 state machine of one session. The inner method is the
-- section's parameter `process`, over a state of its own. A call of `&mut self` returns the state
-- beside its result, on every path; the stages of `step` and of its helpers stand in the children.
pub mod Types
pub mod Flow
pub mod Binding
pub mod Machine
pub mod Stages
pub mod Verified
pub mod Confirmed
pub mod Sourced
pub mod Closing
pub mod Terminal
pub mod Malformed
pub mod Unconfirmed
pub mod Completes
