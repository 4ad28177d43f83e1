-- ===== src/Connector/HistorySync.antt =====
-- pkg/connector/backfill.go, `handleWAHistorySync`: what a history sync event puts into the tables.
pub mod Store
pub mod Tests
use whatsapp_matrix_bridge.Common.{
  ℕ, Bool, true, false, ◌||◌, Option, none, some, List, [], ◌∷◌, if◌then◌else◌, Bytes,
}
use whatsapp_matrix_bridge.Common.Clock.{Instant, day, since_lt}
use whatsapp_matrix_bridge.Waid.Jid.{Jid, JidLib, Server, broadcast, hidden_user}
use whatsapp_matrix_bridge.Wadb.Message.{Row, Tuple, Chat, chat_at}
use whatsapp_matrix_bridge.Wadb.Message as Stored
use whatsapp_matrix_bridge.Wadb.Conversation.{Conversation, HistoryConversation, new_conversation}
use whatsapp_matrix_bridge.Wadb.Conversation as Chats
use whatsapp_matrix_bridge.Connector.MessageType.{Message, get_message_type, is_ignored}

pub data SyncType : Type 0 where
  initial_bootstrap initial_status_v3 full recent push_name non_blocking_data on_demand : SyncType

-- What `ParseWebMessage` makes of a message.
pub record WebEvent : Type 0 where
  pub sender : Jid
  pub id : Bytes
  pub timestamp : ℕ
  pub message : Option Message

-- A conversation of the event, with messages of a type `W`.
pub record SyncedChat (W : Type 0) : Type 0 where
  pub id : Bytes
  pub messages : List W
  pub settings : HistoryConversation

pub record Event (W : Type 0) : Type 0 where
  pub sync_type : Option SyncType
  pub conversations : List (SyncedChat W)

-- The two tables, and `LastHistorySync` of the login's metadata.
pub record State (S : Type 0) : Type 0 where
  pub messages : List (Row S)
  pub conversations : List Conversation
  pub last_history_sync : Instant

-- The database's part in one event: whether it takes a conversation, and the chunks in which it is
-- given the messages of a chat, each with its time and whether it is refused.
pub record Database (S : Type 0) : Type 0 where
  pub refuses : Jid → Bool
  pub chunks : Jid → List (Tuple S) → List (List (Tuple S) × ℕ × Bool)

-- The types of sync that are not stored.
abbrev pub is_unstored : SyncType → Bool
is_unstored initial_status_v3 = true
is_unstored push_name = true
is_unstored non_blocking_data = true
is_unstored t = false

-- Broadcast lists and hidden users.
abbrev pub is_skipped : Jid → Bool
is_skipped j = elim j.server [ broadcast ↦ true | hidden_user ↦ true | _ ↦ false ]

module _ {S : Type 0} (lib : JidLib) (bridge login : Bytes) (db : Database S) where
  -- The conversation is put before its messages.
  unfoldable pub save : Jid → HistoryConversation → List (Tuple S) → State S → State S
  save jid settings [] s = s
  save jid settings (t ∷ ts) s = if db.refuses jid then s else record s {
    conversations = Chats.put bridge (new_conversation login jid settings) s.conversations;
    messages = (Stored.put lib (chat_at bridge login jid) (db.chunks jid (t ∷ ts)) s.messages).0;
  }

module _ {W S : Type 0} (parse : Jid → W → Option WebEvent) (marshal : W → Option S) where
  keep : W → WebEvent → Option S → List (Tuple S) → List (Tuple S)
  keep raw evt none kept = kept
  keep raw evt (some stored) kept =
      record { sender = evt.sender; id = evt.id; timestamp = evt.timestamp; message = stored }
      ∷ kept

  -- The loop over the messages of a conversation.
  unfoldable pub collect : Jid → List W → List (Tuple S)
  unfolding keep
  collect jid [] = []
  collect jid (raw ∷ raws) =
      let kept = collect jid raws in
      elim (parse jid raw) [
        | none ↦ kept
        | some evt ↦
            if is_ignored (get_message_type evt.message)
            then kept
            else keep raw evt (marshal raw) kept
      ]

  module _ (lib : JidLib) (bridge login : Bytes) (db : Database S) where
    -- With what `types.ParseJID` answers.
    unfoldable pub store_at : SyncedChat W → Option Jid → State S → State S
    store_at conv none s = s
    store_at conv (some jid) s =
        if is_skipped jid
        then s
        else save lib bridge login db jid conv.settings (collect jid conv.messages) s

    unfoldable pub store_chat : SyncedChat W → State S → State S
    store_chat conv = store_at conv (lib.parse_jid conv.id)

    unfoldable pub store_all : List (SyncedChat W) → State S → State S
    store_all [] s = s
    store_all (conv ∷ convs) s = store_all convs (store_chat conv s)

    -- `checked` and `finished` are the times at which the handler reads the clock: for the 24-hour
    -- gate and at the end.
    unfoldable pub handle_wa_history_sync : ℕ → ℕ → Event W → State S → State S
    handle_wa_history_sync checked finished evt s = elim evt.sync_type [
      | none ↦ s
      | some t ↦
          if is_unstored t
          then s
          else if since_lt checked s.last_history_sync day
          then s
          else record (store_all evt.conversations s) { last_history_sync = some finished }
    ]
