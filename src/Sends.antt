-- ===== src/Sends.antt =====
-- internal/sends: the history of the messages that were accepted, as the panel shows it.
pub mod Recorder
pub mod Quoted
pub mod Compose
pub mod Charset
pub mod Headers
pub mod Message
pub mod Shown
