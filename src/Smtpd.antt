-- ===== src/Smtpd.antt =====
-- The SMTP server of internal/smtpd.
pub mod Parse
pub mod Lines
pub mod Server
pub mod Auth
pub mod Mail
pub mod Session
pub mod Effects
pub mod Invariant
pub mod Progress
pub mod Commit
pub mod Login
