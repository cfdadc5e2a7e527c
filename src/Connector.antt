-- ===== src/Connector.antt =====
-- src/connector.rs and its submodules: sessions of local OpenSSH processes.
pub mod Exec
pub mod Buffer
pub mod Batch
pub mod Manager
pub mod Guard
pub mod Sessions
pub mod Output
