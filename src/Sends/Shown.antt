-- ===== src/Sends/Shown.antt =====
-- internal/sends/msg.go: a composed message as parseMsg reads it back. The modules below cut the head
-- from the body and read the fields.
pub mod Head
pub mod Fields
pub mod Body
pub mod Message
pub mod Composed
