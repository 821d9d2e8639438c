-- ===== src/Tests.antt =====
-- Runs on small inputs, and the theorems at concrete inputs.
pub mod Samples
mod Rows
mod Merges
mod Expressions
mod Planning
mod Blocks
mod Normalization
mod Where
