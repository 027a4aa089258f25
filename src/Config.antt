-- ===== src/Config.antt =====
-- internal/config/config.go: the configuration. Config.Types has the records, Config.Env what the
-- environment sets, Config.Normal the normal form and the checks, and Config.Load the whole.
pub mod Types
pub mod Decode
pub mod Env
pub mod Seeds
pub mod Listen
pub mod Normal
pub mod Load
