-- ===== src/Connector/ChatInfo.antt =====
-- pkg/connector/chatinfo.go: what is told of a chat, its settings and its updaters. The types are
-- those of bridgev2, with the fields that the program sets.
pub mod Group
pub mod Change
pub mod Wrap
pub mod Get
pub mod Events
pub mod Settings
pub mod Filed
pub mod Rooms
pub mod Roles
pub mod Tests
use whatsapp_matrix_bridge.Common.{
  ℕ, Bool, true, false, not, Option, none, some, List, [], ◌∷◌, ◌++◌, ltb, ◌==◌, if◌then◌else◌,
  Bytes, beq, Bytes-discrete,
}
use whatsapp_matrix_bridge.Common.Clock.{Instant, day, since_gt}
use whatsapp_matrix_bridge.Waid.Jid.{Jid}
use whatsapp_matrix_bridge.Wadb.Conversation.{Conversation}
use whatsapp_matrix_bridge.Connector.Ids.{EventSender}

-- `event.Membership`, `unset` being the empty string.
pub data Membership : Type 0 where
  unset join leave : Membership

pub record ChatMember : Type 0 where
  pub event_sender : EventSender
  pub membership : Membership
  pub power_level : Option ℕ

abbrev pub member_of : EventSender → ChatMember
member_of sender = record { event_sender = sender; membership = unset; power_level = none }

-- The event types that have a power level of their own.
pub data EventType : Type 0 where
  room_name room_avatar topic reaction redaction : EventType

pub record PowerLevelOverrides : Type 0 where
  pub events_default : Option ℕ
  pub state_default : Option ℕ
  pub ban : Option ℕ
  pub events : List (EventType × ℕ)

-- A map by user ID: an assignment to a key replaces what was there.
abbrev pub MemberMap : Type 0
MemberMap = List (Bytes × ChatMember)

unfoldable pub put : Bytes → ChatMember → MemberMap → MemberMap
put k m [] = (k, m) ∷ []
put k m ((q, n) ∷ rest) =
    let later = put k m rest in if beq Bytes-discrete q k then (k, m) ∷ rest else (q, n) ∷ later

unfoldable pub lookup : Bytes → MemberMap → Option ChatMember
lookup k [] = none
lookup k ((q, n) ∷ rest) =
    let later = lookup k rest in if beq Bytes-discrete q k then some n else later

pub record ChatMemberList : Type 0 where
  pub is_full : Bool
  pub total_member_count : ℕ
  pub other_user_id : Bytes
  pub member_map : MemberMap
  pub power_levels : Option PowerLevelOverrides

-- `off` is the zero struct, which has no type.
pub data DisappearingSetting : Type 0 where
  off : DisappearingSetting
  after_read : ℕ → DisappearingSetting

pub data MutedUntil : Type 0 where
  muted_forever unmuted : MutedUntil
  until : Instant → MutedUntil

pub record UserLocal : Type 0 where
  pub muted_until : Option MutedUntil
  pub tag : Option Bytes

pub data RoomType : Type 0 where
  default dm space : RoomType

-- An avatar, by its ID, or its removal.
pub data Avatar : Type 0 where
  has_id remove : Bytes → Avatar

-- The functions that are called with the portal: `updatePortalLastSyncAt`,
-- `updateDisappearingTimerSetAt` and what `makePortalAvatarFetcher` makes.
pub data Updater : Type 0 where
  last_sync_at : Updater
  timer_set_at : ℕ → Updater
  avatar_fetcher : Bytes → Jid → Instant → Updater

-- Pointers are `none` where they are nil; `extra_updates` are in the order in which they are merged.
pub record ChatInfo : Type 0 where
  pub name : Option Bytes
  pub topic : Option Bytes
  pub avatar : Option Avatar
  pub members : Option ChatMemberList
  pub type : Option RoomType
  pub disappear : Option DisappearingSetting
  pub parent_id : Option Bytes
  pub user_local : Option UserLocal
  pub can_backfill : Bool
  pub extra_updates : List Updater

abbrev pub no_info : ChatInfo
no_info = record {
  name = none;
  topic = none;
  avatar = none;
  members = none;
  type = none;
  disappear = none;
  parent_id = none;
  user_local = none;
  can_backfill = false;
  extra_updates = [];
}

-- The options of the configuration that are read.
pub record Config : Type 0 where
  pub pinned_tag : Bytes
  pub archive_tag : Bytes
  pub mute_status_broadcast : Bool
  pub status_broadcast_tag : Bytes

-- `types.LocalChatSettings`
pub record ChatSettings : Type 0 where
  pub muted_until : Instant
  pub pinned : Bool
  pub archived : Bool

-- `ptr.Val`
abbrev pub val : Option Bool → Bool
val none = false
val (some b) = b

abbrev pub val_or_zero : Option ℕ → ℕ
val_or_zero none = 0
val_or_zero (some n) = n

unfoldable pub local_info : Config → Instant → Bool → Bool → UserLocal
local_info config muted pinned archived = record {
  muted_until = some (until muted);
  tag =
      if pinned then some config.pinned_tag else if archived then some config.archive_tag else none;
}

-- `none` is an error of the store.
unfoldable pub apply_chat_settings : Config → Option ChatSettings → ChatInfo → ChatInfo
apply_chat_settings config none info = info
apply_chat_settings config (some chat) info = record info {
  user_local = some (local_info config chat.muted_until chat.pinned chat.archived);
}

timer_of : Conversation → Option DisappearingSetting → Option DisappearingSetting
timer_of conv (some d) = some d
timer_of conv none =
    if ltb 0 (val_or_zero conv.ephemeral_expiration)
    then some (after_read (val_or_zero conv.ephemeral_expiration))
    else none

timer_updates : Conversation → Option DisappearingSetting → List Updater
timer_updates conv (some d) = []
timer_updates conv none =
    if ltb 0 (val_or_zero conv.ephemeral_expiration)
    then elim conv.ephemeral_setting_timestamp [ none ↦ [] | some ts ↦ timer_set_at ts ∷ [] ]
    else []

unfoldable pub apply_history_info : Config → Conversation → ChatInfo → ChatInfo
unfolding timer_of timer_updates
apply_history_info config conv info = record info {
  can_backfill = true;
  user_local = some (local_info config conv.mute_end_time (val conv.pinned) (val conv.archived));
  disappear = timer_of conv info.disappear;
  extra_updates = info.extra_updates ++ timer_updates conv info.disappear;
}

-- `waid.PortalMetadata`
pub record PortalMetadata : Type 0 where
  pub disappearing_timer_set_at : ℕ
  pub last_sync : Instant

-- Whether the portal is saved.
unfoldable pub update_portal_last_sync_at : ℕ → PortalMetadata → PortalMetadata × Bool
update_portal_last_sync_at now meta =
    (record meta { last_sync = some now }, since_gt now meta.last_sync day)

unfoldable pub update_disappearing_timer_set_at : ℕ → PortalMetadata → PortalMetadata × Bool
update_disappearing_timer_set_at ts meta =
    if not (meta.disappearing_timer_set_at == ts)
    then (record meta { disappearing_timer_set_at = ts }, true)
    else (meta, false)
