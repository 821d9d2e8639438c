-- ===== src/Rows.antt =====
-- Rows and their columns: the part of limulus/execution/rewrites.py and
-- limulus/execution/input_preparation.py that works on lists of `dict` rows.
pub mod Resolve
pub mod ByGroups
pub mod LagLead
pub mod Sort
pub mod Sources
pub mod SetRows
pub mod MergeSources
pub mod MergeAlign
pub mod MergeRows
