-- ===== src/Session.antt =====
-- `class App` of bin/python/app.py: a session with a server.
pub mod App
pub mod Requests
pub mod Recording
pub mod Messages
pub mod Accounts
pub mod Aliases
pub mod Queries
pub mod QueriesLaws
pub mod BalanceLaws
