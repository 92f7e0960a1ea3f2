-- ===== src/Client.antt =====
-- `class RippleClient` of bin/python/ripple_client.py: its retries and its subscriptions.
pub mod Retry
pub mod Subscriptions
pub mod SubscriptionLaws
