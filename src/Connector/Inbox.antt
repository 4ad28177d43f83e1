-- ===== src/Connector/Inbox.antt =====
-- pkg/connector/handlewhatsapp.go: what the events of WhatsApp that concern a chat are queued as,
-- with the wrapper of message events in pkg/connector/events.go. Times are in seconds.
pub mod Queued
pub mod Receipts
pub mod Tests
use whatsapp_matrix_bridge.Common.{
  ℕ, ◌+◌, ◌*◌, Bool, true, false, ◌&&◌, ◌||◌, not, Option, none, some, List, [], ◌∷◌, ◌++◌, map,
  ◌==◌, ltb, if◌then◌else◌, Bytes, beq,
}
use whatsapp_matrix_bridge.Common.Text.{codes}
use whatsapp_matrix_bridge.Waid.Jid.{Jid, JidLib, Jid-discrete, new_jid, broadcast, is_hidden_user}
use whatsapp_matrix_bridge.Waid.Id.{make_message_id, make_fake_message_id}
use whatsapp_matrix_bridge.Connector.Ids.{
  PortalKey, EventSender, Login, MessageSource, make_wa_portal_key, make_event_sender,
  get_portal_key_by_message_source,
}
use whatsapp_matrix_bridge.Connector.MessageType.{
  Message, MessageType, get_message_type, is_ignored,
}
use whatsapp_matrix_bridge.Connector.Phone.{phone_seen}
use whatsapp_matrix_bridge.Connector.Phone

-- The parts of `types.MessageInfo` that are read; `is_incoming_broadcast` is a method of whatsmeow.
pub record Info : Type 0 where
  pub source : MessageSource
  pub is_incoming_broadcast : Bool
  pub id : Bytes
  pub timestamp : ℕ

-- The options of the configuration that the handlers read.
pub record Config : Type 0 where
  pub enable_status_broadcast : Bool
  pub call_start_notices : Bool
  pub identity_change_notices : Bool
  pub archive_tag : Bytes
  pub pinned_tag : Bytes

-- `types.ReceiptType`, as far as it is told apart.
pub data ReceiptType : Type 0 where
  read read_self delivered other : ReceiptType

pub record Receipt : Type 0 where
  pub is_from_me : Bool
  pub chat : Jid
  pub sender : Jid
  pub message_sender : Jid
  pub type : ReceiptType
  pub message_ids : List Bytes
  pub timestamp : ℕ

-- `bridgev2.RemoteEventType` of a message event.
pub data RemoteType : Type 0 where
  reaction reaction_remove edit message_remove unknown message_upsert : RemoteType

pub data MutedUntil : Type 0 where
  muted_forever unmuted : MutedUntil
  until : ℕ → MutedUntil

-- What is queued.
pub data RemoteEvent : Type 0 where
  message : Info → MessageType → RemoteEvent
  undecryptable : Info → RemoteEvent
  read_receipt delivery_receipt : PortalKey → EventSender → List Bytes → ℕ → RemoteEvent
  read_up_to : PortalKey → EventSender → ℕ → RemoteEvent
  call_start identity_change : PortalKey → EventSender → Bytes → ℕ → RemoteEvent
  chat_delete : PortalKey → ℕ → RemoteEvent
  remove_message : PortalKey → Bytes → ℕ → RemoteEvent
  muted : PortalKey → MutedUntil → ℕ → RemoteEvent
  tagged : PortalKey → Bytes → ℕ → RemoteEvent

-- `types.StatusBroadcastJID`
abbrev pub status_broadcast_jid : Jid
status_broadcast_jid = new_jid (codes "status") broadcast

-- `callEventMaxAge`
abbrev pub call_event_max_age : ℕ
call_event_max_age = 15 * 60

-- The guards that message events share.
unfoldable pub is_dropped : Config → MessageSource → Bool
is_dropped config ms =
    is_hidden_user ms.chat.server
    || is_hidden_user ms.sender.server
    || (beq Jid-discrete ms.chat status_broadcast_jid && not config.enable_status_broadcast)

unfoldable pub handle_wa_message : Config → Info → Option Message → Option RemoteEvent
handle_wa_message config info msg =
    if is_dropped config info.source
    then none
    else if is_ignored (get_message_type msg)
    then none
    else some (message info (get_message_type msg))

-- `hide` tells whether `DecryptFailMode` is `DecryptFailHide`.
unfoldable pub handle_wa_undecryptable_message : Config → Bool → Info → Option RemoteEvent
handle_wa_undecryptable_message config hide info =
    if hide || is_dropped config info.source then none else some (undecryptable info)

-- `WAMessageEvent.GetType`
unfoldable pub get_type : MessageType → RemoteType
get_type MessageType.reaction = reaction
get_type MessageType.reaction_remove = reaction_remove
get_type MessageType.edit = edit
get_type MessageType.revoke = message_remove
get_type MessageType.ignore = unknown
get_type t = message_upsert

module _ (lib : JidLib) (login : Login) where
  open lib use {is_empty}

  -- `MessageInfoWrapper.GetPortalKey` and `GetID`
  unfoldable pub get_portal_key : Info → PortalKey
  get_portal_key info =
      get_portal_key_by_message_source lib login info.is_incoming_broadcast info.source

  unfoldable pub get_id : Info → Bytes
  get_id info = make_message_id lib info.source.chat info.source.sender info.id

  -- `messageSender` of a receipt.
  unfoldable pub receipt_message_sender : Receipt → Jid
  receipt_message_sender evt = if is_empty evt.message_sender then login.jid else evt.message_sender

  unfoldable pub targets : Receipt → List Bytes
  targets evt =
      map (λ id. make_message_id lib evt.chat (receipt_message_sender evt) id) evt.message_ids

  queue_receipt : Receipt → Option RemoteEvent
  queue_receipt evt =
      let key = make_wa_portal_key lib login evt.chat in
      let sender = make_event_sender lib login evt.sender in
      elim evt.type [
        | read ↦ some (read_receipt key sender (targets evt) evt.timestamp)
        | read_self ↦ some (read_receipt key sender (targets evt) evt.timestamp)
        | delivered ↦ some (delivery_receipt key sender (targets evt) evt.timestamp)
        | other ↦ none
      ]

  -- `handleWAReceipt` at the time `now`: the phone's state, whether the bridge state `connected` is
  -- sent, and what is queued. The first two arguments are those of `phone_seen`.
  unfoldable pub handle_wa_receipt :
      Bool → Bool → ℕ → Receipt → Phone.State → (Phone.State × Bool) × Option RemoteEvent
  unfolding queue_receipt
  handle_wa_receipt was_offline connected now evt phone = (
    if evt.is_from_me && evt.sender.device == 0
        then phone_seen was_offline connected now evt.timestamp phone
        else (phone, false),
    queue_receipt evt,
  )

  -- `time.Since(ts) > callEventMaxAge`
  unfoldable pub handle_wa_call_start : Config → ℕ → Jid → Bytes → ℕ → Option RemoteEvent
  handle_wa_call_start config now sender id ts =
      if not config.call_start_notices || ltb (ts + call_event_max_age) now
      then none
      else some (
          call_start (make_wa_portal_key lib login sender) (make_event_sender lib login sender)
            (make_fake_message_id lib sender sender (codes "call-" ++ id)) ts)

  -- `millis` is the event's time in milliseconds, printed in decimal.
  unfoldable pub handle_wa_identity_change : Config → Jid → Bytes → ℕ → Option RemoteEvent
  handle_wa_identity_change config jid millis ts =
      if not config.identity_change_notices
      then none
      else some (
          identity_change (make_wa_portal_key lib login jid) (make_event_sender lib login jid)
            (make_fake_message_id lib jid jid (codes "idchange-" ++ millis)) ts)

  unfoldable pub handle_wa_delete_chat : Jid → ℕ → RemoteEvent
  handle_wa_delete_chat jid ts = chat_delete (make_wa_portal_key lib login jid) ts

  unfoldable pub handle_wa_delete_for_me : Jid → Jid → Bytes → ℕ → RemoteEvent
  handle_wa_delete_for_me chat sender id ts =
      remove_message (make_wa_portal_key lib login chat) (make_message_id lib chat sender id) ts

  unfoldable pub handle_wa_mark_chat_as_read : Jid → ℕ → RemoteEvent
  handle_wa_mark_chat_as_read jid ts =
      read_up_to (make_wa_portal_key lib login jid) (make_event_sender lib login login.jid) ts

  muted_until : Bool → ℕ → MutedUntil
  muted_until false end = unmuted
  muted_until true end = if end == 0 then muted_forever else until end

  unfoldable pub handle_wa_mute : Jid → ℕ → Bool → ℕ → RemoteEvent
  unfolding muted_until
  handle_wa_mute jid ts is_muted end =
      muted (make_wa_portal_key lib login jid) (muted_until is_muted end) ts

  unfoldable pub handle_wa_archive : Config → Jid → ℕ → Bool → RemoteEvent
  handle_wa_archive config jid ts archived =
      tagged (make_wa_portal_key lib login jid) (if archived then config.archive_tag else []) ts

  unfoldable pub handle_wa_pin : Config → Jid → ℕ → Bool → RemoteEvent
  handle_wa_pin config jid ts pinned =
      tagged (make_wa_portal_key lib login jid) (if pinned then config.pinned_tag else []) ts
