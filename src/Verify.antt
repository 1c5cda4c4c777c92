-- ===== src/Verify.antt =====
-- src/verify: the verification of one receipt and of a batch.
pub mod Verdict
pub mod Anchor
pub mod Policy
pub mod File
pub mod TrustStore
pub mod Single
pub mod Online
pub mod Consistency
pub mod Batch
