-- ===== src/Waid.antt =====
-- pkg/waid: the identifiers that the bridge makes from WhatsApp JIDs and message IDs.
pub mod Jid
pub mod Id
pub mod Media
