-- ===== src/Tests.antt =====
-- Runs of the definitions, and the theorems at concrete inputs.
pub mod Queue
pub mod Accounts
pub mod Smtp
pub mod Delivery
pub mod Counters
pub mod Masks
pub mod Compose
pub mod Dns
pub mod Api
pub mod Config
