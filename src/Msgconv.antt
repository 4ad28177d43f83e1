-- ===== src/Msgconv.antt =====
-- pkg/msgconv: messages between WhatsApp's form and Matrix's.
pub mod WaText
pub mod Keys
pub mod Polls
pub mod Ephemeral
