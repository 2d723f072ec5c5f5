-- ===== src/Examples.antt =====
-- The actors of waltz/examples, as scripts on the context.
pub mod Receives
pub mod ScatterGather
pub mod WorkPulling
pub mod Supervision
pub mod Counter
pub mod Hello
pub mod DeviceManager
