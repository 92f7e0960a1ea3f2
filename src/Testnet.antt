-- ===== src/Testnet.antt =====
-- bin/python/testnet.py: a network of rippled servers that is started and stopped.
pub mod Network
pub mod Servers
pub mod Invariant
pub mod Stop
pub mod Flags
pub mod Running
pub mod StopAll
pub mod Wait
pub mod WaitLaws
pub mod WaitBounds
