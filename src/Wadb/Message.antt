-- ===== src/Wadb/Message.antt =====
-- pkg/connector/wadb/message.go: the messages of a history sync, kept until they are backfilled.
pub mod Batches
pub mod Laws
pub mod Sorting
pub mod Tests
use whatsapp_matrix_bridge.Common.{
  ℕ, zero, suc, ◌+◌, ◌<◌, ◌≤◌, ◌≡◌, Bool, true, false, ◌&&◌, ◌||◌, not, Option, none, some, List,
  [], ◌∷◌, ◌++◌, map, take, leb, if◌then◌else◌, Bytes, beq, Bytes-discrete, All,
}
use whatsapp_matrix_bridge.Common.Result.{Result, ok, err}
use whatsapp_matrix_bridge.Waid.Jid.{Jid, Jid-discrete, JidLib}
use mathlib.Core.List.{Perm}

-- A row; `message` stands for the column `data`, the marshalled message.
pub record Row (M : Type 0) : Type 0 where
  pub bridge_id : Bytes
  pub user_login_id : Bytes
  pub chat_jid : Jid
  pub sender_jid : Jid
  pub message_id : Bytes
  pub timestamp : ℕ
  pub message : M
  pub inserted_time : ℕ

-- `HistorySyncMessageTuple`, with the fields of its `types.MessageInfo` that are stored.
pub record Tuple (M : Type 0) : Type 0 where
  pub sender : Jid
  pub id : Bytes
  pub timestamp : ℕ
  pub message : M

-- The chat that a query is about: `mq.BridgeID`, `loginID` and `chatJID`.
pub record Chat : Type 0 where
  pub bridge_id : Bytes
  pub login_id : Bytes
  pub jid : Jid

-- The chat with a JID, for a bridge and a login.
abbrev pub chat_at : Bytes → Bytes → Jid → Chat
chat_at bridge login j = record { bridge_id = bridge; login_id = login; jid = j }

-- An error of the database, which is not told apart further.
pub data DbError : Type 0 where
  db_error : DbError

-- A Unix time that a client may name. The table holds no message from before the epoch.
pub data UnixTime : Type 0 where
  at : ℕ → UnixTime
  before_epoch : UnixTime

-- The optional bounds of `GetBetween`.
abbrev pub at_least : Option ℕ → ℕ → Bool
at_least none t = true
at_least (some start) t = leb start t

abbrev pub at_most : Option UnixTime → ℕ → Bool
at_most none t = true
at_most (some (at end)) t = leb t end
at_most (some before_epoch) t = false

module _ {M : Type 0} where
  -- `bridge_id=$1 AND user_login_id=$2`
  unfoldable pub is_of_login : Bytes → Bytes → Row M → Bool
  is_of_login bridge login r =
      beq Bytes-discrete r.bridge_id bridge && beq Bytes-discrete r.user_login_id login

  -- … `AND chat_jid=$3`
  unfoldable pub is_in : Chat → Row M → Bool
  unfolding is_of_login
  is_in c r = is_of_login c.bridge_id c.login_id r && beq Jid-discrete r.chat_jid c.jid

  unfoldable pub select : (Row M → Bool) → List (Row M) → List (Row M)
  select p [] = []
  select p (r ∷ rs) = if p r then r ∷ select p rs else select p rs

  abbrev pub delete_where : (Row M → Bool) → List (Row M) → List (Row M)
  delete_where p = select (λ r. not (p r))

  -- Rows with one primary key.
  unfoldable pub same_key : Row M → Row M → Bool
  same_key r s =
      beq Bytes-discrete r.bridge_id s.bridge_id
      && beq Bytes-discrete r.user_login_id s.user_login_id
      && beq Jid-discrete r.chat_jid s.chat_jid
      && beq Jid-discrete r.sender_jid s.sender_jid
      && beq Bytes-discrete r.message_id s.message_id

  unfoldable pub has_key : Row M → List (Row M) → Bool
  has_key r [] = false
  has_key r (s ∷ rows) = same_key s r || has_key r rows

  -- `INSERT … ON CONFLICT (…) DO NOTHING`
  unfoldable pub insert : Row M → List (Row M) → List (Row M)
  insert r rows = if has_key r rows then rows else rows ++ (r ∷ [])

  unfoldable pub insert_all : List (Row M) → List (Row M) → List (Row M)
  insert_all [] rows = rows
  insert_all (r ∷ rs) rows = insert_all rs (insert r rows)

  module _ (lib : JidLib) where
    -- `GetMassInsertValues`, with the values that all rows of the statement share.
    unfoldable pub to_row : Chat → ℕ → Tuple M → Row M
    to_row c now t = record {
      bridge_id = c.bridge_id;
      user_login_id = c.login_id;
      chat_jid = c.jid;
      sender_jid = lib.to_non_ad t.sender;
      message_id = t.id;
      timestamp = t.timestamp;
      message = t.message;
      inserted_time = now;
    }

    -- The loop of `Put`, over the chunks into which an outside package cuts the messages, which may
    -- be any; each has the time at which its statement is built and whether the database refuses it.
    unfoldable pub put_chunks :
        Chat → List (List (Tuple M) × ℕ × Bool) → List (Row M) → Result DbError (List (Row M))
    put_chunks c [] rows = ok rows
    put_chunks c ((chunk, now, refused) ∷ chunks) rows =
        let rest = put_chunks c chunks (insert_all (map (to_row c now) chunk) rows) in
        if refused then err db_error else rest

    -- `Put` runs its loop in a transaction: the table after it, and whether it succeeded.
    unfoldable pub put :
        Chat → List (List (Tuple M) × ℕ × Bool) → List (Row M) → List (Row M) × Bool
    put c chunks rows = elim (put_chunks c chunks rows) [
      | ok after ↦ (after, true)
      | err e ↦ (rows, false)
    ]

  unfoldable pub is_between : Chat → Option ℕ → Option UnixTime → Row M → Bool
  is_between c start end r = is_in c r && (at_least start r.timestamp && at_most end r.timestamp)

  -- A list is in the order of `ORDER BY timestamp DESC`.
  abbrev pub Descends : List (Row M) → Type 0
  Descends [] = Unit {0}
  Descends (r ∷ rs) = All (λ s. s.timestamp ≤ r.timestamp) rs × Descends rs

-- How the database orders rows by falling timestamp. SQL leaves open which of two rows with one
-- timestamp comes first, so the order is a parameter.
pub record Sorter (M : Type 0) : Type 0 where
  pub order : List (Row M) → List (Row M)
  pub order-perm : (rows : List (Row M)) → Perm (order rows) rows
  pub order-Descends : (rows : List (Row M)) → Descends (order rows)

module _ {M : Type 0} (sorter : Sorter M) where
  -- `GetBetween`; a limit of 0 leaves the `LIMIT` clause out.
  unfoldable pub get_between : Chat → Option ℕ → Option UnixTime → ℕ → List (Row M) → List (Row M)
  get_between c start end zero rows = sorter.order (select (is_between c start end) rows)
  get_between c start end (suc limit) rows =
      take (suc limit) (sorter.order (select (is_between c start end) rows))

module _ {M : Type 0} where
  -- `DeleteBetween`: `timestamp<=$4 AND timestamp>=$5`.
  unfoldable pub delete_between : Chat → ℕ → ℕ → List (Row M) → List (Row M)
  unfolding is_between
  delete_between c before after =
      delete_where (λ r. is_in c r && (leb r.timestamp before && leb after r.timestamp))

  unfoldable pub delete_all : Bytes → Bytes → List (Row M) → List (Row M)
  delete_all bridge login = delete_where (is_of_login bridge login)

  unfoldable pub delete_all_in_chat : Chat → List (Row M) → List (Row M)
  delete_all_in_chat c = delete_where (is_in c)

  unfoldable pub conversation_has_messages : Chat → List (Row M) → Bool
  conversation_has_messages c [] = false
  conversation_has_messages c (r ∷ rows) = is_in c r || conversation_has_messages c rows
