-- ===== src/Connector/HistorySync/Tests.antt =====
-- The theorems on the history sync at concrete inputs. A message is its ID.
use whatsapp_matrix_bridge.Common.{ℕ, ◌≡◌, refl, false, Option, none, some, [], ◌∷◌, Bytes, arith}
use whatsapp_matrix_bridge.Common.Text.{codes}
use whatsapp_matrix_bridge.Waid.Jid.{Jid}
use whatsapp_matrix_bridge.Waid.Jid.Plain.{plain_jids, alice}
use whatsapp_matrix_bridge.Wadb.Message.Laws.{IsKeyed}
use whatsapp_matrix_bridge.Wadb.Conversation.{HistoryConversation}
use whatsapp_matrix_bridge.Connector.HistorySync.{
  full, WebEvent, SyncedChat, Event, State, Database, handle_wa_history_sync,
}
use whatsapp_matrix_bridge.Connector.HistorySync.Store.{
  NoneSkipped, handle_wa_history_sync_sound, handle_wa_history_sync_drops,
}

abbrev pub parse : Jid → Bytes → Option WebEvent
parse j m = some (record { sender = alice; id = m; timestamp = 10; message = none })

abbrev pub marshal : Bytes → Option Bytes
marshal m = some m

abbrev pub database : Database Bytes
database = record { refuses = λ j. false; chunks = λ j ts. (ts, 5, false) ∷ [] }

abbrev settings : HistoryConversation
settings = record {
  last_msg_timestamp = some 10;
  archived = none;
  pinned = none;
  mute_end_time = none;
  end_of_history_transfer_type = none;
  ephemeral_expiration = none;
  ephemeral_setting_timestamp = none;
  marked_as_unread = none;
  unread_count = none;
}

abbrev chat : Bytes → SyncedChat Bytes
chat m = record { id = codes "120363@g.us"; messages = m ∷ []; settings = settings }

abbrev pub empty : State Bytes
empty = record { messages = []; conversations = []; last_history_sync = none }

-- Two chunks of one sync.
abbrev pub first : Event Bytes
first = record { sync_type = some full; conversations = chat (codes "A") ∷ [] }

abbrev second : Event Bytes
second = record { sync_type = some full; conversations = chat (codes "B") ∷ [] }

abbrev handle : ℕ → Event Bytes → State Bytes → State Bytes
handle now =
    handle_wa_history_sync parse marshal plain_jids (codes "b") (codes "1") database now now

handle_wa_history_sync_sound_example :
    IsKeyed (handle 100 first empty).messages × NoneSkipped (handle 100 first empty).messages
handle_wa_history_sync_sound_example =
    handle_wa_history_sync_sound parse marshal plain_jids (codes "b") (codes "1") database 100 100
      first empty tt tt

handle_wa_history_sync_drops_example :
    handle 105 second (handle 100 first empty) ≡ handle 100 first empty
handle_wa_history_sync_drops_example =
    handle_wa_history_sync_drops parse marshal plain_jids (codes "b") (codes "1") database 100 100
      105 105 first second empty full refl refl refl (omega arith)
