-- ===== src/Repl.antt =====
-- `class BridgeRepl` of bin/python/interactive.py.
pub mod State
pub mod Args
pub mod Pay
pub mod Accounts
pub mod Bridges
pub mod Transfers
pub mod Scenarios
pub mod Show
pub mod Batch
pub mod HelpLocal
pub mod HelpBridge
pub mod Offers
pub mod Complete
pub mod Keeps
pub mod Recording
pub mod Numbered
pub mod Aliases
pub mod PayLaws
pub mod PayRefused
pub mod BatchLaws
pub mod OffersLaws
pub mod CompleteLaws
pub mod ClaimLaws
pub mod XchainLaws
