-- ===== src/Connector/Portals/Tests.antt =====
-- The theorem on new portals at a concrete table: a chat and the status broadcast.
use whatsapp_matrix_bridge.Common.{false, none, some, List, [], ◌∷◌, length, Bytes}
use whatsapp_matrix_bridge.Common.Text.{codes}
use whatsapp_matrix_bridge.Waid.Jid.{Jid}
use whatsapp_matrix_bridge.Waid.Jid.Plain.{plain_jids, alice, friends}
use whatsapp_matrix_bridge.Wadb.Conversation.{Conversation, get_recent}
use whatsapp_matrix_bridge.Connector.Ids.{Login}
use whatsapp_matrix_bridge.Connector.Inbox.{status_broadcast_jid}
use whatsapp_matrix_bridge.Connector.Portals.{Answer, rate_limited, info, create_portals}
use whatsapp_matrix_bridge.Connector.Portals.Counted.{Accounts, create_portals-Accounts}

abbrev login : Login
login = record { id = codes "1"; jid = alice; split_portals = false }

abbrev conversation : Jid → Conversation
conversation j = record {
  bridge_id = codes "b";
  user_login_id = codes "1";
  chat_jid = j;
  last_message_timestamp = some 10;
  archived = none;
  pinned = none;
  mute_end_time = none;
  end_of_history_transfer_type = none;
  ephemeral_expiration = none;
  ephemeral_setting_timestamp = none;
  marked_as_unread = none;
  unread_count = none;
  bridged = false;
}

abbrev table : List Conversation
table = conversation friends ∷ conversation status_broadcast_jid ∷ []

-- The first request runs into the rate limit.
abbrev answers : Jid → Answer Bytes
answers j = rate_limited (info (codes "i"))

create_portals-Accounts_example :
    Accounts false
      (length (get_recent (λ rows. rows) (codes "b") login.id (some 5) table))
      (create_portals plain_jids login (codes "b") false (λ rows. rows) (some 5) answers table)
create_portals-Accounts_example =
    create_portals-Accounts plain_jids login (codes "b") false (λ rows. rows) (some 5) answers table
