-- ===== src/Setup.antt =====
-- The scripts that set a bridge up: the ports of bin/python/create_config_files.py, and the settings, the quorum
-- and the set-up functions of bin/python/sidechain.py.
pub mod Ports
pub mod PortsLaws
pub mod Keypairs
pub mod Stanzas
pub mod CfgText
pub mod CfgFiles
pub mod CfgLines
pub mod CfgRead
pub mod CfgHead
pub mod CfgClient
pub mod Quorum
pub mod Options
pub mod Chains
