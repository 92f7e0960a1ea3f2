-- ===== src/Tests.antt =====
-- Concrete inputs, tests of the definitions, and the theorems at concrete inputs.
pub mod Samples
pub mod Common
pub mod Transaction
pub mod Command
pub mod Config
pub mod Keys
pub mod Testnet
pub mod Setup
pub mod Session
pub mod Client
pub mod Repl
pub mod Log
pub mod Options
pub mod Cfg
pub mod Queries
pub mod Analyze
pub mod Complete
pub mod Wait
pub mod Chains
