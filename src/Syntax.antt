-- ===== src/Syntax.antt =====
-- Typed syntax: the expressions of limulus/syntax/models.py and the walks over them.
pub mod Expression
pub mod Source
pub mod Options
pub mod Statement
pub mod Walk
pub mod Normalization
