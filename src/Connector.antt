-- ===== src/Connector.antt =====
-- pkg/connector: the network connector of the bridge.
pub mod Ids
pub mod MessageType
pub mod MediaRequest
pub mod Backfill
pub mod HistorySync
pub mod MediaEditCache
pub mod Phone
pub mod Resync
pub mod DirectMedia
pub mod Inbox
pub mod Connection
pub mod Portals
pub mod Groups
pub mod ChatInfo
pub mod SyncLoop
pub mod Matrix
