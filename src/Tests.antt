-- ===== src/Tests.antt =====
-- Runs of the model at concrete inputs.
pub mod Instances
pub mod Delays
pub mod Mailboxes
pub mod References
pub mod Tasks
pub mod Trees
pub mod Reports
pub mod Examples
