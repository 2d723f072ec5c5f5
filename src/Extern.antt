-- ===== src/Extern.antt =====
-- What the crate takes from other crates, as interfaces: each record lists the operations that the
-- source calls and the documented behaviour that it relies on.
pub mod Flume
pub mod Oneshot
pub mod Timeout
pub mod Watch
