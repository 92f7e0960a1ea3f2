-- ===== src/Command.antt =====
-- bin/python/command.py: the commands, as they are sent over a websocket or a command line.
pub mod Types
pub mod Websocket
pub mod CommandLine
pub mod Ids
pub mod Tagged
