-- ===== src/Tests.antt =====
-- Concrete receipts, providers and batches, and the theorems applied to them.
pub mod Data
pub mod Receipts
pub mod Network
pub mod Batches
pub mod Disk
pub mod Programs
pub mod Directories
pub mod Documents
