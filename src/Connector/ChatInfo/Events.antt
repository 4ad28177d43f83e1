-- ===== src/Connector/ChatInfo/Events.antt =====
-- pkg/connector/handlewhatsapp.go: the events on groups, channels, pictures and typing, and what
-- they are queued as.
use whatsapp_matrix_bridge.Common.{
  ℕ, Bool, true, false, Option, none, some, [], ◌∷◌, if◌then◌else◌, Bytes,
}
use whatsapp_matrix_bridge.Common.Clock.{Instant}
use whatsapp_matrix_bridge.Common.Text.{codes}
use whatsapp_matrix_bridge.Waid.Jid.{Jid, JidLib, is_default_user}
use whatsapp_matrix_bridge.Connector.Ids.{
  PortalKey, EventSender, Login, no_sender, make_wa_portal_key, make_event_sender,
}
use whatsapp_matrix_bridge.Connector.ChatInfo.{ChatInfo, no_info, remove, avatar_fetcher}
use whatsapp_matrix_bridge.Connector.ChatInfo.Group.{
  GroupInfo, GroupChange, ChatInfoChange, wrap_group_info,
}
use whatsapp_matrix_bridge.Connector.ChatInfo.Change.{wrap_group_info_change}
use whatsapp_matrix_bridge.Connector.ChatInfo.Wrap.{NewsletterInfo, wrap_newsletter_info}

-- `simplevent.EventMeta`, where the event has a time.
pub record Meta : Type 0 where
  pub portal_key : PortalKey
  pub create_portal : Bool
  pub sender : EventSender
  pub timestamp : Instant

pub data TypingType : Type 0 where
  text recording_media : TypingType

-- What is queued; a ghost is synced at once.
pub data Outcome : Type 0 where
  chat_delete : Meta → Bool → Outcome
  info_change : Meta → ChatInfoChange → Outcome
  chat_resync : Meta → ChatInfo → Outcome
  typing : Meta → ℕ → TypingType → Outcome
  sync_ghost : Jid → Bytes → Outcome

-- `events.Picture`
pub record Picture : Type 0 where
  pub jid : Jid
  pub author : Jid
  pub timestamp : ℕ
  pub remove : Bool
  pub picture_id : Bytes

-- `events.ChatPresence`: whether it is of audio, and whether it is paused.
pub record ChatPresence : Type 0 where
  pub chat : Jid
  pub sender : Jid
  pub is_audio : Bool
  pub is_paused : Bool

module _ (lib : JidLib) (login : Login) where
  -- An event that has only a portal, which is created if the second argument says so.
  meta_of : Jid → Bool → Meta
  meta_of chat create = record {
    portal_key = make_wa_portal_key lib login chat;
    create_portal = create;
    sender = no_sender;
    timestamp = none;
  }

  sender_of : Option Jid → EventSender
  sender_of none = no_sender
  sender_of (some j) = make_event_sender lib login j

  unfoldable pub handle_wa_group_info_change : GroupChange → Outcome
  unfolding meta_of sender_of
  handle_wa_group_info_change evt =
      let meta = record (meta_of evt.jid true) {
        sender = sender_of evt.sender;
        timestamp = some evt.timestamp;
      } in
      if evt.delete
      then chat_delete meta false
      else info_change meta (wrap_group_info_change lib login evt)

  unfoldable pub handle_wa_joined_group : Jid → GroupInfo → Outcome
  unfolding meta_of
  handle_wa_joined_group jid info = chat_resync (meta_of jid true) (wrap_group_info lib login info)

  unfoldable pub handle_wa_newsletter_join : NewsletterInfo → Outcome
  unfolding meta_of
  handle_wa_newsletter_join info =
      chat_resync (meta_of info.id true) (wrap_newsletter_info lib login info)

  unfoldable pub handle_wa_newsletter_leave : Jid → Outcome
  unfolding meta_of
  handle_wa_newsletter_leave id = chat_delete (meta_of id false) true

  picture_change : Picture → ChatInfo
  picture_change evt =
      if evt.remove
      then record no_info { avatar = some (remove (codes "remove")) }
      else record no_info {
        extra_updates = avatar_fetcher evt.picture_id evt.author (some evt.timestamp) ∷ [];
      }

  unfoldable pub handle_wa_picture_update : Picture → Outcome
  unfolding meta_of picture_change
  handle_wa_picture_update evt =
      if is_default_user evt.jid.server
      then sync_ghost evt.jid evt.picture_id
      else info_change
          (record (meta_of evt.jid false) {
            sender = make_event_sender lib login evt.author;
            timestamp = some evt.timestamp;
          })
          (record { chat_info = some (picture_change evt); member_changes = none })

  -- The time of the event is that of the clock.
  unfoldable pub handle_wa_chat_presence : ℕ → ChatPresence → Outcome
  unfolding meta_of
  handle_wa_chat_presence now evt =
      typing
        (record (meta_of evt.chat false) {
          sender = make_event_sender lib login evt.sender;
          timestamp = some now;
        })
        (if evt.is_paused then 0 else 15) (if evt.is_audio then recording_media else text)
