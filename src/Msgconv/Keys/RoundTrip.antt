-- ===== src/Msgconv/Keys/RoundTrip.antt =====
-- Keys that pkg/connector/id.go makes, read by `KeyToMessageID` of pkg/msgconv/wa-poll.go.
use whatsapp_matrix_bridge.Common.{◌≡◌, ◌≢◌, refl, some, [], Bytes, arith, beq_iff, Bytes-discrete}
use whatsapp_matrix_bridge.Waid.Jid.{
  Jid, JidLib, IsPlain, messenger, default_user, Server-discrete, other, account,
}
use whatsapp_matrix_bridge.Waid.Id.{ParsedMessageId, message_id_string}
use whatsapp_matrix_bridge.Connector.Ids.{Login, message_id_to_key}
use whatsapp_matrix_bridge.Msgconv.Keys.{
  without_legacy, other_sender, key_sender, chat_at, key_chat, key_to_message_id,
}

module _ (lib : JidLib) (legacy : Bytes) (login : Login) (own : Jid) (p : ParsedMessageId) where
  -- What a message of the login's chats is: its JIDs are accounts, and it is the login's own or, in
  -- a direct chat, of the other side; in any other chat it may be of anyone.
  pub record IsOf : Type 0 where
    pub own_id : own.user ≡ login.id
    pub chat_plain : IsPlain p.chat
    pub sender_plain : IsPlain p.sender
    pub own_account : p.sender.user ≡ own.user → p.sender ≡ account own
    pub direct : p.sender.user ≢ own.user → p.chat.server ≡ default_user → p.sender ≡ p.chat
    pub no_messenger : p.chat.server ≢ messenger

  key_chat-lem :
      IsPlain p.chat → key_chat lib legacy p.chat (message_id_to_key lib login p) ≡ p.chat
  unfolding key_chat chat_at message_id_to_key
  key_chat-lem plain = ground (arith, lib.parse_jid-string_of p.chat plain)

  without_legacy-IsPlain : (j : Jid) → IsPlain j → without_legacy legacy j ≡ j
  unfolding without_legacy
  without_legacy-IsPlain j plain =
      ground (arith, plain.named, beq_iff Server-discrete j.server (other legacy))

  own_sender :
      IsOf
      → p.sender.user ≡ login.id
      → key_sender lib legacy (account own) p.chat own (message_id_to_key lib login p)
        ≡ some p.sender
  unfolding key_sender message_id_to_key
  own_sender h e = ground (
    arith,
    e,
    h.own_id,
    h.own_account,
    beq_iff Bytes-discrete p.sender.user login.id,
    lib.to_non_ad_lem own,
  )

  others_sender :
      IsOf
      → p.sender.user ≢ login.id
      → key_sender lib legacy (account own) p.chat own (message_id_to_key lib login p)
        ≡ some p.sender
  unfolding key_sender other_sender message_id_to_key
  others_sender h n = ground (
    arith,
    n,
    h.own_id,
    h.direct,
    h.no_messenger,
    beq_iff Bytes-discrete p.sender.user login.id,
    beq_iff Bytes-discrete own.user own.user,
    beq_iff Bytes-discrete (lib.string_of p.sender) [],
    beq_iff Bytes-discrete [] [],
    lib.string_of-ne_nil p.sender h.sender_plain,
    lib.parse_jid-string_of p.sender h.sender_plain,
    lib.to_non_ad_lem own,
    without_legacy-IsPlain p.sender h.sender_plain,
  )

  key_id : (message_id_to_key lib login p).id ≡ p.id
  unfolding message_id_to_key
  key_id = refl

  -- A message key that the login makes is read back by KeyToMessageID, for the login itself, to
  -- the ID of the message, if chat and sender are plain accounts, the chat is not on the Messenger
  -- server, a sender with the user part of the login is its own account, and any other sender in a
  -- direct chat is the other side.
  pub key_to_message_id-message_id_to_key :
      IsOf
      → key_to_message_id lib legacy (account own) p.chat own (message_id_to_key lib login p)
        ≡ message_id_string lib p
  unfolding key_to_message_id message_id_string
  key_to_message_id-message_id_to_key h = elim (Bytes-discrete p.sender.user login.id) [
    | yes e ↦ ground (arith, own_sender h e, key_chat-lem h.chat_plain, key_id)
    | no n ↦ ground (arith, others_sender h n, key_chat-lem h.chat_plain, key_id)
  ]
