-- ===== src/Config.antt =====
-- bin/python/config_file.py: sections of a configuration file, and the file's parser.
pub mod Section
pub mod File
pub mod Render
pub mod RoundTrip
pub mod Errors
