-- ===== src/Connector/Portals.antt =====
-- pkg/connector/backfill.go, `createPortalsFromHistorySync`: the recent conversations of the table
-- become portals, and those that fail are left for the next time.
pub mod Counted
pub mod Tests
use whatsapp_matrix_bridge.Common.{
  ℕ, zero, suc, ◌+◌, ◌*◌, Bool, true, false, ◌&&◌, not, Option, none, some, List, [], ◌∷◌, ◌++◌,
  if◌then◌else◌, Bytes, beq,
}
use whatsapp_matrix_bridge.Common.Clock.{Instant}
use whatsapp_matrix_bridge.Waid.Jid.{Jid, JidLib, Jid-discrete}
use whatsapp_matrix_bridge.Wadb.Message.{chat_at}
use whatsapp_matrix_bridge.Wadb.Conversation.{Conversation, get_recent, mark_bridged}
use whatsapp_matrix_bridge.Wadb.Conversation
use whatsapp_matrix_bridge.Connector.Ids.{PortalKey, Login, make_wa_portal_key}
use whatsapp_matrix_bridge.Connector.Inbox.{status_broadcast_jid}

-- How the rounds of the loop for one conversation go: the client is gone or the context cancelled
-- at the start of a round; or the chat information is refused because of the rate limit, which
-- leads to another round; or the round is the last one.
pub data Answer (I : Type 0) : Type 0 where
  stopped : Answer I
  rate_limited : Answer I → Answer I
  not_in_group info_failed : Answer I
  info : I → Answer I

-- A queued `ChatResync`.
pub record Resync (I : Type 0) : Type 0 where
  pub key : PortalKey
  pub chat : Jid
  pub chat_info : I
  pub latest_message : Instant

-- `rateLimitErrors`, how often `wg.Done` was called by the loop, the queued events, the seconds
-- slept, and the table.
pub record State (I : Type 0) : Type 0 where
  pub rate_limit_errors : ℕ
  pub dones : ℕ
  pub queued : List (Resync I)
  pub slept : ℕ
  pub conversations : List Conversation

-- Whether the loop came to its end.
pub data Progress (I : Type 0) : Type 0 where
  halted finished : State I → Progress I

-- The status broadcast, where it is not enabled.
unfoldable pub is_unwanted : Bool → Conversation → Bool
is_unwanted enabled conv = beq Jid-discrete conv.chat_jid status_broadcast_jid && not enabled

module _ {I : Type 0} (lib : JidLib) (login : Login) (bridge : Bytes)
    (enable_status_broadcast : Bool) where
  -- The rounds for a conversation that is not skipped.
  unfoldable pub attempt : Conversation → Answer I → State I → Progress I
  attempt conv stopped s = halted s
  attempt conv (rate_limited a) s = attempt conv a (record s {
    rate_limit_errors = suc s.rate_limit_errors;
    slept = s.slept + (s.rate_limit_errors + suc s.rate_limit_errors * 60);
  })
  attempt conv not_in_group s = finished (record s {
    dones = suc s.dones;
    slept = s.slept + s.rate_limit_errors;
    conversations = Conversation.delete (chat_at bridge login.id conv.chat_jid) s.conversations;
  })
  attempt conv info_failed s =
      finished (record s { dones = suc s.dones; slept = s.slept + s.rate_limit_errors })
  attempt conv (info i) s = finished (record s {
    slept = s.slept + s.rate_limit_errors;
    queued =
        s.queued
        ++ (record {
          key = make_wa_portal_key lib login conv.chat_jid;
          chat = conv.chat_jid;
          chat_info = i;
          latest_message = conv.last_message_timestamp;
        }
            ∷ []);
  })

  skip : State I → Progress I
  skip s = finished (record s { dones = suc s.dones })

  -- The rounds for any conversation.
  unfoldable pub create_one : Conversation → Answer I → State I → Progress I
  unfolding skip
  create_one conv stopped s = halted s
  create_one conv a s =
      if is_unwanted enable_status_broadcast conv then skip s else attempt conv a s

  unfoldable pub create_all : (Jid → Answer I) → List Conversation → Progress I → Progress I
  create_all answers convs (halted s) = halted s
  create_all answers [] (finished s) = finished s
  create_all answers (conv ∷ convs) (finished s) =
      create_all answers convs (create_one conv (answers conv.chat_jid) s)

  abbrev pub start : List Conversation → State I
  start rows = record {
    rate_limit_errors = 0;
    dones = 0;
    queued = [];
    slept = 0;
    conversations = rows;
  }

  -- `limit` is `MaxInitialConversations`, `none` where it is negative.
  unfoldable pub create_portals :
      (List Conversation → List Conversation)
      → Option ℕ
      → (Jid → Answer I)
      → List Conversation
      → Progress I
  create_portals order limit answers rows =
      create_all answers (get_recent order bridge login.id limit rows) (finished (start rows))

  -- `PostHandleFunc` of the queued events.
  unfoldable pub post_handle : List (Resync I) → List Conversation → List Conversation
  post_handle [] rows = rows
  post_handle (r ∷ rs) rows = post_handle rs (mark_bridged (chat_at bridge login.id r.chat) rows)
