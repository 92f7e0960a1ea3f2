-- ===== src/Keys.antt =====
-- `class KeyManager` and `class AssetAliases` of bin/python/app.py.
pub mod KeyManager
pub mod AssetAliases
pub mod Laws
