-- ===== src/Wadb/Conversation.antt =====
-- pkg/connector/wadb/conversation.go: the chats of a history sync, before and after their portals
-- are created.
pub mod Upsert
pub mod History
pub mod Known
pub mod Tests
use whatsapp_matrix_bridge.Common.{
  ℕ, zero, suc, ◌<◌, Bool, true, false, ◌&&◌, not, Option, none, some, List, [], ◌∷◌, ◌++◌, take,
  ltb, if◌then◌else◌, Bytes, beq, Bytes-discrete,
}
use whatsapp_matrix_bridge.Common.Clock.{Instant}
use whatsapp_matrix_bridge.Waid.Jid.{Jid, Jid-discrete}
use whatsapp_matrix_bridge.Wadb.Message.{Chat}
use mathlib.Core.List.{Perm}

-- The struct `Conversation`, and a row of its table: `none` is a nil pointer or the zero time in
-- the one and NULL in the other.
pub record Conversation : Type 0 where
  pub bridge_id : Bytes
  pub user_login_id : Bytes
  pub chat_jid : Jid
  pub last_message_timestamp : Instant
  pub archived : Option Bool
  pub pinned : Option Bool
  pub mute_end_time : Instant
  pub end_of_history_transfer_type : Option ℕ
  pub ephemeral_expiration : Option ℕ
  pub ephemeral_setting_timestamp : Option ℕ
  pub marked_as_unread : Option Bool
  pub unread_count : Option ℕ
  pub bridged : Bool

-- The fields of `waHistorySync.Conversation` that are stored.
pub record HistoryConversation : Type 0 where
  pub last_msg_timestamp : Option ℕ
  pub archived : Option Bool
  pub pinned : Option ℕ
  pub mute_end_time : Option ℕ
  pub end_of_history_transfer_type : Option ℕ
  pub ephemeral_expiration : Option ℕ
  pub ephemeral_setting_timestamp : Option ℕ
  pub marked_as_unread : Option Bool
  pub unread_count : Option ℕ

unfoldable pub parse_history_time : Option ℕ → Instant
parse_history_time none = none
parse_history_time (some zero) = none
parse_history_time (some (suc t)) = some (suc t)

is_pinned : Option ℕ → Option Bool
is_pinned none = none
is_pinned (some p) = some (ltb 0 p)

unfoldable pub new_conversation : Bytes → Jid → HistoryConversation → Conversation
unfolding is_pinned
new_conversation login chat conv = record {
  bridge_id = [];
  user_login_id = login;
  chat_jid = chat;
  last_message_timestamp = parse_history_time conv.last_msg_timestamp;
  archived = conv.archived;
  pinned = is_pinned conv.pinned;
  mute_end_time = parse_history_time conv.mute_end_time;
  end_of_history_transfer_type = conv.end_of_history_transfer_type;
  ephemeral_expiration = conv.ephemeral_expiration;
  ephemeral_setting_timestamp = conv.ephemeral_setting_timestamp;
  marked_as_unread = conv.marked_as_unread;
  unread_count = conv.unread_count;
  bridged = false;
}

unfoldable pub is_in : Chat → Conversation → Bool
is_in c r =
    beq Bytes-discrete r.bridge_id c.bridge_id
    && beq Bytes-discrete r.user_login_id c.login_id
    && beq Jid-discrete r.chat_jid c.jid

-- `COALESCE(excluded.x, conversation.x)`
unfoldable pub coalesce {ℓ} : {A : Type ℓ} → Option A → Option A → Option A
coalesce none old = old
coalesce (some a) old = some a

-- `CASE WHEN old IS NULL OR excluded > old THEN excluded ELSE old END`; a comparison with NULL is
-- not true.
unfoldable pub later : Instant → Instant → Instant
later excluded none = excluded
later none (some t) = some t
later (some e) (some t) = if ltb t e then some e else some t

-- `DO UPDATE SET …`
unfoldable pub merge : Conversation → Conversation → Conversation
merge excluded old = record old {
  last_message_timestamp = later excluded.last_message_timestamp old.last_message_timestamp;
  archived = coalesce excluded.archived old.archived;
  pinned = coalesce excluded.pinned old.pinned;
  mute_end_time = coalesce excluded.mute_end_time old.mute_end_time;
  end_of_history_transfer_type =
      coalesce excluded.end_of_history_transfer_type old.end_of_history_transfer_type;
  ephemeral_expiration = coalesce excluded.ephemeral_expiration old.ephemeral_expiration;
  ephemeral_setting_timestamp =
      coalesce excluded.ephemeral_setting_timestamp old.ephemeral_setting_timestamp;
  marked_as_unread = coalesce excluded.marked_as_unread old.marked_as_unread;
  unread_count = coalesce excluded.unread_count old.unread_count;
  bridged = false;
}

abbrev pub chat_of : Conversation → Chat
chat_of r = record { bridge_id = r.bridge_id; login_id = r.user_login_id; jid = r.chat_jid }

unfoldable pub upsert : Conversation → List Conversation → List Conversation
upsert r [] = r ∷ []
upsert r (old ∷ rows) = if is_in (chat_of r) old then merge r old ∷ rows else old ∷ upsert r rows

-- `Put`, which sets the bridge ID first.
unfoldable pub put : Bytes → Conversation → List Conversation → List Conversation
put bridge conv = upsert (record conv { bridge_id = bridge })

unfoldable pub select : (Conversation → Bool) → List Conversation → List Conversation
select p [] = []
select p (r ∷ rows) = if p r then r ∷ select p rows else select p rows

-- An instant as `Scan` reads it: a stored 0 is the zero time.
scan_time : Instant → Instant
scan_time none = none
scan_time (some zero) = none
scan_time (some (suc t)) = some (suc t)

unfoldable pub scan : Conversation → Conversation
unfolding scan_time
scan r = record r {
  last_message_timestamp = scan_time r.last_message_timestamp;
  mute_end_time = scan_time r.mute_end_time;
}

-- `Get`: the first row of the chat, if there is one.
unfoldable pub get : Chat → List Conversation → Option Conversation
get c [] = none
get c (r ∷ rows) = if is_in c r then some (scan r) else get c rows

unfoldable pub mark_bridged : Chat → List Conversation → List Conversation
mark_bridged c [] = []
mark_bridged c (r ∷ rows) =
    (if is_in c r then record r { bridged = true } else r) ∷ mark_bridged c rows

is_of_login : Bytes → Bytes → Conversation → Bool
is_of_login bridge login r =
    beq Bytes-discrete r.bridge_id bridge && beq Bytes-discrete r.user_login_id login

unfoldable pub delete_all : Bytes → Bytes → List Conversation → List Conversation
unfolding is_of_login
delete_all bridge login = select (λ r. not (is_of_login bridge login r))

unfoldable pub delete : Chat → List Conversation → List Conversation
delete c = select (λ r. not (is_in c r))

unfoldable pub is_recent : Bytes → Bytes → Conversation → Bool
unfolding is_of_login
is_recent bridge login r = is_of_login bridge login r && not r.bridged

scan_all : List Conversation → List Conversation
scan_all [] = []
scan_all (r ∷ rows) = scan r ∷ scan_all rows

-- `GetRecent`: the limit is `none` where it is negative. `order` is how the database orders rows
-- by `last_message_timestamp DESC`.
unfoldable pub get_recent :
    (List Conversation → List Conversation)
    → Bytes
    → Bytes
    → Option ℕ
    → List Conversation
    → List Conversation
unfolding scan_all
get_recent order bridge login none rows = scan_all (order (select (is_recent bridge login) rows))
get_recent order bridge login (some limit) rows =
    scan_all (take limit (order (select (is_recent bridge login) rows)))
