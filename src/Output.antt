-- ===== src/Output.antt =====
-- src/output: what the program prints.
pub mod Json
pub mod Human
