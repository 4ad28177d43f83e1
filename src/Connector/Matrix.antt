-- ===== src/Connector/Matrix.antt =====
-- pkg/connector/handlematrix.go: what the events of Matrix are sent to WhatsApp as. `M` is a
-- converted message. What is sent is answered where the source passes the answer of whatsmeow on.
pub mod Echo
pub mod Reads
pub mod Tests
use whatsapp_matrix_bridge.Common.{
  ℕ, ◌-◌, Bool, true, false, not, ◌&&◌, ◌||◌, Option, none, some, List, [], ◌∷◌, ◌++◌, ltb,
  if◌then◌else◌, Bytes, beq, Bytes-discrete,
}
use whatsapp_matrix_bridge.Common.Clock.{Instant}
use whatsapp_matrix_bridge.Common.Result.{Result, ok, err, ◌>>=◌}
use whatsapp_matrix_bridge.Waid.Jid.{Jid, JidLib, Jid-discrete, empty_jid}
use whatsapp_matrix_bridge.Waid.Id.{
  ParsedMessageId, make_user_id, make_message_id, parse_portal_id, parse_message_id,
}
use whatsapp_matrix_bridge.Connector.Ids.{Login, MessageKey, message_id_to_key}
use whatsapp_matrix_bridge.Connector.Inbox.{status_broadcast_jid}

pub data Error : Type 0 where
  bad_id broadcast_send_disabled broadcast_reaction convert_failed send_failed query_failed : Error

-- An error of an identifier's parser is passed on.
abbrev pub parsed {ℓ κ} : {E : Type κ} {A : Type ℓ} → Result E A → Result Error A
parsed (ok a) = ok a
parsed (err e) = err bad_id

-- `database.Message` of the response. Its ID is the pending one that the response removes too, and
-- its time the stream order.
pub record DbMessage : Type 0 where
  pub id : Bytes
  pub sender_id : Bytes
  pub timestamp : ℕ
  pub sender_device_id : ℕ

-- `waE2E.ReactionMessage`, and the chat that it is sent to.
pub record Reaction : Type 0 where
  pub chat : Jid
  pub key : MessageKey
  pub text : Bytes
  pub sender_timestamp_ms : ℕ

-- The arguments of `BuildEdit` and `BuildRevoke`, and the chat that the result is sent to.
pub record Edit (M : Type 0) : Type 0 where
  pub chat : Jid
  pub target_chat : Jid
  pub target_id : Bytes
  pub message : M
  pub timestamp_ms : Option ℕ

pub record Revoke : Type 0 where
  pub chat : Jid
  pub target : ParsedMessageId

-- A message of the database, as far as read receipts look at it.
pub record Stored : Type 0 where
  pub id : Bytes
  pub sender_id : Bytes

pub data TypingType : Type 0 where
  text recording_media uploading_media : TypingType

-- `SendChatPresence`: composing or paused, of audio or text, and whether the own presence is sent.
pub record Presence : Type 0 where
  pub chat : Jid
  pub composing : Bool
  pub audio : Bool
  pub send_presence : Bool

-- A map from senders to message IDs; an assignment appends to what is there.
abbrev pub Groups : Type 0
Groups = List (Jid × List Bytes)

unfoldable pub append_to : Jid → Bytes → Groups → Groups
append_to k id [] = (k, id ∷ []) ∷ []
append_to k id ((j, ids) ∷ rest) =
    let later = append_to k id rest in
    if beq Jid-discrete j k then (j, ids ++ (id ∷ [])) ∷ rest else (j, ids) ∷ later

module _ (lib : JidLib) (login : Login) where
  -- The message that is registered to be ignored when it comes back, and the response. The
  -- arguments are `DisableStatusBroadcastSend`, the new ID and the time that whatsmeow answers.
  unfoldable pub handle_converted_matrix_message :
      Bool → Bytes → Option ℕ → Bytes → Option Bytes × Result Error DbMessage
  handle_converted_matrix_message disabled message_id answer portal_id =
      elim (parse_portal_id lib portal_id) [
        | err e ↦ (none, err bad_id)
        | ok chat ↦
            if beq Jid-discrete chat status_broadcast_jid && disabled
            then (none, err broadcast_send_disabled)
            else (
              some (make_message_id lib chat login.jid message_id),
              elim answer [
                | none ↦ err send_failed
                | some t ↦ ok (record {
                  id = make_message_id lib chat login.jid message_id;
                  sender_id = make_user_id login.jid;
                  timestamp = t;
                  sender_device_id = login.jid.device;
                })
              ],
            )
      ]

  -- `PreHandleMatrixReaction`: the sender and the emoji; `clean` removes variation selectors.
  unfoldable pub pre_handle_matrix_reaction :
      (Bytes → Bytes) → Bytes → Bytes → Result Error (Bytes × Bytes)
  pre_handle_matrix_reaction clean portal_id emoji = elim (parse_portal_id lib portal_id) [
    | err e ↦ err bad_id
    | ok chat ↦
        if beq Jid-discrete chat status_broadcast_jid
        then err broadcast_reaction
        else ok (make_user_id login.jid, clean emoji)
  ]

  unfoldable pub handle_matrix_reaction : Bytes → Bytes → Bytes → ℕ → Result Error Reaction
  handle_matrix_reaction target portal_id emoji timestamp = do
    message_id ← parsed (parse_message_id lib target)
    chat ← parsed (parse_portal_id lib portal_id)
    ok (record {
      chat = chat;
      key = message_id_to_key lib login message_id;
      text = emoji;
      sender_timestamp_ms = timestamp;
    })

  unfoldable pub handle_matrix_reaction_remove : Bytes → Bytes → ℕ → Result Error Reaction
  handle_matrix_reaction_remove target portal_id timestamp =
      handle_matrix_reaction target portal_id [] timestamp

  -- The converted message is `none` where the conversion fails; the last argument is the time of
  -- the event where it has no original sender.
  unfoldable pub handle_matrix_edit :
      {M : Type 0} → Bytes → Bytes → Option M → Option ℕ → Result Error (Edit M)
  handle_matrix_edit target portal_id message timestamp = do
    message_id ← parsed (parse_message_id lib target)
    chat ← parsed (parse_portal_id lib portal_id)
    elim message [
      | none ↦ err convert_failed
      | some m ↦ ok (record {
        chat = chat;
        target_chat = message_id.chat;
        target_id = message_id.id;
        message = m;
        timestamp_ms = timestamp;
      })
    ]

  unfoldable pub handle_matrix_message_remove : Bytes → Bytes → Result Error Revoke
  handle_matrix_message_remove target portal_id = do
    message_id ← parsed (parse_message_id lib target)
    chat ← parsed (parse_portal_id lib portal_id)
    ok (record { chat = chat; target = message_id })

  -- The sender under which a message is marked as read: the empty JID in direct chats.
  unfoldable pub read_key : ParsedMessageId → Jid
  read_key p = if beq Jid-discrete p.sender p.chat then empty_jid else p.sender

  add_message : Result Error ParsedMessageId → Stored → Groups → Groups
  add_message (err e) msg groups = groups
  add_message (ok p) msg groups =
      if beq Bytes-discrete msg.sender_id login.id
      then groups
      else append_to (read_key p) p.id groups

  -- The loop over the messages.
  unfoldable pub group_messages : List Stored → Groups → Groups
  unfolding add_message
  group_messages [] groups = groups
  group_messages (msg ∷ msgs) groups =
      group_messages msgs (add_message (parsed (parse_message_id lib msg.id)) msg groups)

  query_answer : Jid → Option (List Stored) → Result Error (Option (Jid × Groups))
  query_answer chat none = err query_failed
  query_answer chat (some []) = ok none
  query_answer chat (some (msg ∷ msgs)) = ok (some (chat, group_messages (msg ∷ msgs) []))

  -- `LastRead`, where it is not the zero time.
  last_read_of : ℕ → Instant → ℕ
  last_read_of read_up_to none = read_up_to - 5
  last_read_of read_up_to (some t) = t

  is_after : ℕ → Instant → Bool
  is_after read_up_to none = true
  is_after read_up_to (some t) = ltb t read_up_to

  -- The chat and the messages that are marked as read, by sender; `between` is the query.
  unfoldable pub handle_matrix_read_receipt :
      (ℕ → ℕ → Option (List Stored)) → Bytes → ℕ → Instant → Result Error (Option (Jid × Groups))
  unfolding last_read_of is_after query_answer
  handle_matrix_read_receipt between portal_id read_up_to last_read =
      if not (is_after read_up_to last_read) then ok none else do
        chat ← parsed (parse_portal_id lib portal_id)
        query_answer chat (between (last_read_of read_up_to last_read) read_up_to)

  -- `none` is an upload, which sends nothing.
  unfoldable pub handle_matrix_typing :
      Bool → Bytes → Bool → TypingType → Result Error (Option Presence)
  handle_matrix_typing send_presence portal_id is_typing type = do
    chat ← parsed (parse_portal_id lib portal_id)
    elim type [
      | uploading_media ↦ ok none
      | recording_media ↦ ok (
          some (record {
            chat = chat;
            composing = is_typing;
            audio = true;
            send_presence = send_presence;
          }))
      | text ↦ ok (
          some (record {
            chat = chat;
            composing = is_typing;
            audio = false;
            send_presence = send_presence;
          }))
    ]
