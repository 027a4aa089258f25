-- ===== src/Api.antt =====
-- internal/api: the administrative API, one module for each group of handlers.
pub mod Types
pub mod Sound
pub mod System
pub mod Accounts
pub mod Dkim
pub mod Queue
pub mod Sends
pub mod Routes
