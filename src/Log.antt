-- ===== src/Log.antt =====
-- bin/python/log_report.py: the search of log items for transactions, and their grouping.
pub mod Hashes
pub mod HashesLaws
pub mod UniqueHashes
pub mod Group
pub mod GroupLaws
pub mod Rekey
pub mod RekeyLaws
pub mod Analyze
pub mod AnalyzeLaws
