-- ===== src/Config.antt =====
-- seif/config.py: what is read from strings.
pub mod Sentinels
pub mod Loading
pub mod Checks
