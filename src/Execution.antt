-- ===== src/Execution.antt =====
-- src/execution.rs and its submodules: the lifecycle of commands sent to a terminal.
pub mod Job
pub mod Params
pub mod Note
pub mod Capture
pub mod Waiting
pub mod Prepare
pub mod Terminal
pub mod Batches
pub mod Registry
pub mod System
pub mod Marker
pub mod Guarded
pub mod NativeLog
pub mod Output
