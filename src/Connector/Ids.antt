-- ===== src/Connector/Ids.antt =====
-- pkg/connector/id.go: portal keys, event senders and message keys made from JIDs, with the portal
-- of a message source and the sender of a media retry from pkg/connector/events.go.
pub mod Senders
pub mod Tests
use whatsapp_matrix_bridge.Common.{
  Bool, true, false, ◌&&◌, Option, none, some, [], if◌then◌else◌, Bytes, beq, Bytes-discrete,
}
use whatsapp_matrix_bridge.Waid.Jid.{
  Server, default_user, hidden_user, broadcast, newsletter, messenger, is_default_user, Jid, JidLib,
}
use whatsapp_matrix_bridge.Waid.Id.{
  ParsedMessageId, make_portal_id, make_user_id, make_user_login_id,
}

-- `networkid.PortalKey`; an empty receiver means that the portal is shared by all logins.
pub record PortalKey : Type 0 where
  pub id : Bytes
  pub receiver : Bytes

-- `bridgev2.EventSender`
pub record EventSender : Type 0 where
  pub is_from_me : Bool
  pub sender : Bytes
  pub sender_login : Bytes

abbrev pub no_sender : EventSender
no_sender = record { is_from_me = false; sender = []; sender_login = [] }

-- `wa.UserLogin.ID`, `wa.JID` and `Bridge.Config.SplitPortals`.
pub record Login : Type 0 where
  pub id : Bytes
  pub jid : Jid
  pub split_portals : Bool

-- `waCommon.MessageKey`; a field that is not set is `none`.
pub record MessageKey : Type 0 where
  pub remote_jid : Bytes
  pub id : Bytes
  pub from_me : Option Bool
  pub participant : Option Bytes

-- The fields of `types.MessageSource` that the program reads.
pub record MessageSource : Type 0 where
  pub chat : Jid
  pub sender : Jid
  pub is_from_me : Bool
  pub is_group : Bool
  pub broadcast_list_owner : Jid

-- `SplitPortals` decides for every server but those of direct chats and broadcast lists.
abbrev has_own_portal : Server → Bool
has_own_portal default_user = true
has_own_portal hidden_user = true
has_own_portal broadcast = true
has_own_portal s = false

module _ (lib : JidLib) (login : Login) where
  open lib use {to_non_ad, string_of, is_empty}

  unfoldable pub make_wa_portal_key : Jid → PortalKey
  make_wa_portal_key chat = record {
    id = make_portal_id lib chat;
    receiver =
        if has_own_portal chat.server
        then login.id
        else if login.split_portals
        then login.id
        else [];
  }

  unfoldable pub make_event_sender : Jid → EventSender
  make_event_sender j = elim j.server [
    | newsletter ↦ no_sender
    | _ ↦ record {
      is_from_me = beq Bytes-discrete (make_user_login_id j) login.id;
      sender = make_user_id j;
      sender_login = make_user_login_id j;
    }
  ]

  abbrev names_no_participant : Server → Bool
  names_no_participant messenger = true
  names_no_participant default_user = true
  names_no_participant s = false

  unfoldable pub message_id_to_key : ParsedMessageId → MessageKey
  message_id_to_key p = record {
    remote_jid = string_of p.chat;
    id = p.id;
    from_me = if beq Bytes-discrete p.sender.user login.id then some true else none;
    participant = if names_no_participant p.chat.server then none else some (string_of p.sender);
  }

  -- The first argument is `ms.IsIncomingBroadcast()`, a method of whatsmeow.
  unfoldable pub get_portal_key_by_message_source : Bool → MessageSource → PortalKey
  get_portal_key_by_message_source is_incoming_broadcast ms = make_wa_portal_key (
      if is_incoming_broadcast
      then if ms.is_from_me then to_non_ad ms.broadcast_list_owner else to_non_ad ms.sender
      else ms.chat)

  -- The sender of a media retry: chat, sender and `FromMe` of the notification.
  unfoldable pub get_real_sender : Jid → Jid → Bool → Jid
  get_real_sender chat sender from_me =
      if from_me
      then to_non_ad login.jid
      else if is_empty sender && is_default_user chat.server
      then to_non_ad chat
      else sender
