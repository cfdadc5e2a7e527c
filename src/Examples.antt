-- ===== src/Examples.antt =====
-- Concrete runs of the modelled code, and the theorems applied to them.
pub mod Values
pub mod Commands
pub mod Sessions
pub mod Captures
pub mod Pages
pub mod Connections
pub mod Receipts
pub mod Polling
pub mod Waits
pub mod Routes
