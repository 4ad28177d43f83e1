-- ===== src/Wadb/Conversation/Upsert.antt =====
-- Storing a conversation again: what is known is kept, and the newest message stays the newest.
use whatsapp_matrix_bridge.Common.{
  ◌≤◌, ◌≡◌, refl, ◌⊎◌, true, inl, inr, Option, none, some, List, [], ◌∷◌, arith, if◌then◌else◌,
  beq_iff, Bytes-discrete,
}
use whatsapp_matrix_bridge.Common.Clock.{Instant}
use whatsapp_matrix_bridge.Waid.Jid.{Jid-discrete}
use whatsapp_matrix_bridge.Wadb.Message.{Chat}
use whatsapp_matrix_bridge.Wadb.Conversation.{
  Conversation, is_in, later, merge, chat_of, upsert, mark_bridged, is_recent, select,
}

-- The instants in order, the zero time first.
abbrev pub NotAfter : Instant → Instant → Type 0
NotAfter none t = Unit
NotAfter (some s) none = ⊥
NotAfter (some s) (some t) = s ≤ t

-- The later of two instants is the least one that neither is after.
pub later_lem :
    (a b : Instant)
    → NotAfter a (later a b) × NotAfter b (later a b) × ((later a b ≡ a) ⊎ (later a b ≡ b))
unfolding later
later_lem none none = (tt, tt, inl refl)
later_lem none (some t) = (tt, omega arith, inr refl)
later_lem (some s) none = (omega arith, tt, inl refl)
later_lem (some s) (some t) = ground arith

-- A conversation's row, read before any conversion.
unfoldable pub row : Chat → List Conversation → Option Conversation
row c [] = none
row c (r ∷ rows) = if is_in c r then some r else row c rows

-- A chat is its three columns.
is_in-same :
    (c : Chat) (r old : Conversation) → is_in (chat_of r) old ≡ true → is_in c old ≡ is_in c r
unfolding is_in
is_in-same c r old h = ground (
  arith,
  beq_iff Bytes-discrete old.bridge_id r.bridge_id,
  beq_iff Bytes-discrete old.user_login_id r.user_login_id,
  beq_iff Jid-discrete old.chat_jid r.chat_jid,
)

is_in-chat_of :
    (c : Chat) (r old : Conversation) → is_in c r ≡ true → is_in c old ≡ is_in (chat_of r) old
unfolding is_in
is_in-chat_of c r old h = ground (
  arith,
  beq_iff Bytes-discrete r.bridge_id c.bridge_id,
  beq_iff Bytes-discrete r.user_login_id c.login_id,
  beq_iff Jid-discrete r.chat_jid c.jid,
)

is_in-merge : (c : Chat) (r old : Conversation) → is_in c (merge r old) ≡ is_in c old
unfolding is_in merge
is_in-merge c r old = refl

abbrev pub merged_with : Conversation → Option Conversation → Conversation
merged_with r none = r
merged_with r (some old) = merge r old

-- What an upsert leaves in the row of each chat: in its own the row merged with the one that was
-- there, or the new row where there was none, and in every other the old one.
pub row-upsert :
    (r : Conversation) (c : Chat) (rows : List Conversation)
    → row c (upsert r rows)
      ≡ (if is_in c r then some (merged_with r (row (chat_of r) rows)) else row c rows)
unfolding row upsert
row-upsert r c [] = refl
row-upsert r c (old ∷ rows) =
    ground
      (arith, row-upsert r c rows, is_in-same c r old, is_in-chat_of c r old, is_in-merge c r old)

-- What was known stays known.
abbrev pub Keeps {ℓ} : {A : Type ℓ} → Option A → Option A → Type 0
Keeps none b = Unit
Keeps (some a) none = ⊥
Keeps (some a) (some b) = Unit

-- The optional columns of a second row keep what those of a first one know.
pub record KeepsAll (a b : Conversation) : Type 0 where
  pub newest : NotAfter a.last_message_timestamp b.last_message_timestamp
  pub archived : Keeps a.archived b.archived
  pub pinned : Keeps a.pinned b.pinned
  pub mute_end_time : Keeps a.mute_end_time b.mute_end_time
  pub transfer_type : Keeps a.end_of_history_transfer_type b.end_of_history_transfer_type
  pub expiration : Keeps a.ephemeral_expiration b.ephemeral_expiration
  pub setting : Keeps a.ephemeral_setting_timestamp b.ephemeral_setting_timestamp
  pub marked : Keeps a.marked_as_unread b.marked_as_unread
  pub unread : Keeps a.unread_count b.unread_count

-- A chat that was marked as bridged is not among the recent conversations.
pub is_recent-mark_bridged :
    (c : Chat) (rows : List Conversation)
    → row c (select (is_recent c.bridge_id c.login_id) (mark_bridged c rows)) ≡ none
unfolding row select mark_bridged is_recent
is_recent-mark_bridged c [] = refl
is_recent-mark_bridged c (r ∷ rows) = ground (arith, is_recent-mark_bridged c rows)
