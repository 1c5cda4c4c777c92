-- ===== src/Commands.antt =====
-- src/commands: what the program does for a command, and how it ends.
pub mod Wording
pub mod Single
pub mod Batch
pub mod Laws
pub mod BatchLaws
pub mod Execute
pub mod EndToEnd
pub mod BatchAccepted
pub mod BatchEndToEnd
