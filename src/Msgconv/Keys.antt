-- ===== src/Msgconv/Keys.antt =====
-- pkg/msgconv/wa-poll.go, `KeyToMessageID`: the message that a key names, for the one who reads it.
pub mod RoundTrip
pub mod Tests
use whatsapp_matrix_bridge.Common.{
  Bool, true, false, not, Option, none, some, [], if◌then◌else◌, Bytes, beq, Bytes-discrete,
}
use whatsapp_matrix_bridge.Common.Result.{Result, ok, err}
use whatsapp_matrix_bridge.Waid.Jid.{
  Jid, JidLib, Server, other, default_user, Server-discrete, is_default_user, is_group, account,
}
use whatsapp_matrix_bridge.Waid.Id.{make_message_id}
use whatsapp_matrix_bridge.Connector.Ids.{MessageKey}

-- `GetFromMe` and `GetParticipant` of a protobuf field that may not be set.
abbrev pub get_from_me : MessageKey → Bool
get_from_me key = elim key.from_me [ none ↦ false | some b ↦ b ]

abbrev pub get_participant : MessageKey → Bytes
get_participant key = elim key.participant [ none ↦ [] | some p ↦ p ]

-- `types.LegacyUserServer` is the text of the argument.
unfoldable pub without_legacy : Bytes → Jid → Jid
without_legacy legacy j =
    if beq Server-discrete j.server (other legacy) then record j { server = default_user } else j

module _ (lib : JidLib) (legacy : Bytes) where
  open lib use {to_non_ad, parse_jid, is_empty}

  -- The sender of a key that is not the reader's own; `own` is `client.Store.ID` without its device.
  other_sender : Jid → Jid → Jid → MessageKey → Option Jid
  other_sender own chat sender key =
      if not (beq Bytes-discrete (get_participant key) [])
      then elim (parse_jid (get_participant key)) [
        | none ↦ none
        | some j ↦ some (without_legacy legacy j)
      ]
      else if is_default_user chat.server
      then some (if beq Bytes-discrete sender.user own.user then chat else own)
      else none

  unfoldable pub key_sender : Jid → Jid → Jid → MessageKey → Option Jid
  unfolding other_sender
  key_sender own chat sender key =
      if get_from_me key
      then some (to_non_ad sender)
      else other_sender own chat (to_non_ad sender) key

  chat_at : Jid → Option Jid → Jid
  chat_at chat none = chat
  chat_at chat (some remote) =
      if is_empty remote then chat else if is_group remote.server then remote else chat

  unfoldable pub key_chat : Jid → MessageKey → Jid
  unfolding chat_at
  key_chat chat key = chat_at chat (parse_jid key.remote_jid)

  -- The empty ID where the sender is not known.
  unfoldable pub key_to_message_id : Jid → Jid → Jid → MessageKey → Bytes
  key_to_message_id own chat sender key = elim (key_sender own chat sender key) [
    | none ↦ []
    | some s ↦ make_message_id lib (key_chat chat key) s key.id
  ]
