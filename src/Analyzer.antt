-- ===== src/Analyzer.antt =====
-- internal/analyzer: the statistics and the decisions of the offline analyzer.
pub mod Stats
pub mod Report
pub mod Recommend
pub mod Recurrence
pub mod Host
pub mod Dataset
pub mod Sql
pub mod Build
