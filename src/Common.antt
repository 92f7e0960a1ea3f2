-- ===== src/Common.antt =====
-- bin/python/common.py: accounts, assets, payment paths, issues and bridges.
pub mod Account
pub mod Asset
pub mod Path
pub mod Issue
pub mod Bridge
pub mod RoundTrip
pub mod AssetLaws
pub mod Hex
