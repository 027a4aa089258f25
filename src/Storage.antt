-- ===== src/Storage.antt =====
-- internal/storage: the database, one module for each table's operations.
pub mod Types
pub mod Db
pub mod Queue
pub mod Bcrypt
pub mod Accounts
pub mod Dkim
pub mod Counters
pub mod Sends
