-- ===== src/Wadb.antt =====
-- pkg/connector/wadb: the tables of the bridge's own database, each a list of rows. A query is the
-- function that its SQL text describes.
pub mod Message
pub mod Conversation
pub mod MediaRequest
pub mod PollOption
