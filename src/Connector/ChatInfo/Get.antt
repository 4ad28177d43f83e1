-- ===== src/Connector/ChatInfo/Get.antt =====
-- pkg/connector/chatinfo.go, `GetChatInfo` and `getChatInfo`.
use whatsapp_matrix_bridge.Common.{Option, none, some, [], ◌∷◌, ◌++◌, if◌then◌else◌, Bytes, beq}
use whatsapp_matrix_bridge.Common.Result.{Result, ok, err, ◌>>=◌}
use whatsapp_matrix_bridge.Waid.Jid.{
  Jid, JidLib, Jid-discrete, default_user, broadcast, group, newsletter,
}
use whatsapp_matrix_bridge.Waid.Id.{parse_portal_id}
use whatsapp_matrix_bridge.Wadb.Conversation.{Conversation}
use whatsapp_matrix_bridge.Connector.Ids.{Login}
use whatsapp_matrix_bridge.Connector.Inbox.{status_broadcast_jid}
use whatsapp_matrix_bridge.Connector.ChatInfo.{
  last_sync_at, ChatInfo, Config, ChatSettings, apply_chat_settings, apply_history_info,
}
use whatsapp_matrix_bridge.Connector.ChatInfo.Group.{GroupInfo, wrap_group_info}
use whatsapp_matrix_bridge.Connector.ChatInfo.Wrap.{
  NewsletterInfo, wrap_dm_info, wrap_status_broadcast_info, wrap_newsletter_info,
}

pub data Error : Type 0 where
  bad_portal_id broadcast_list request_failed unsupported_server : Error

-- What whatsmeow answers and what the tables and the store hold; `none` is an error of a request
-- and of the store, and an error of the table or a missing row.
pub record Sources : Type 0 where
  pub group_info : Jid → Option GroupInfo
  pub newsletter_info : Jid → Option NewsletterInfo
  pub conversation : Jid → Option Conversation
  pub chat_settings : Jid → Option ChatSettings

module _ (lib : JidLib) (login : Login) (config : Config) (sources : Sources) where
  unfoldable pub group_chat : Option GroupInfo → Result Error ChatInfo
  group_chat none = err request_failed
  group_chat (some info) =
      let wrapped = wrap_group_info lib login info in
      ok (record wrapped { extra_updates = wrapped.extra_updates ++ (last_sync_at ∷ []) })

  unfoldable pub newsletter_chat : Option NewsletterInfo → Result Error ChatInfo
  newsletter_chat none = err request_failed
  newsletter_chat (some info) = ok (wrap_newsletter_info lib login info)

  -- The switch on the server.
  unfoldable pub wrap_info : Jid → Result Error ChatInfo
  unfolding group_chat newsletter_chat
  wrap_info jid = elim jid.server [
    | default_user ↦ ok (wrap_dm_info lib login jid)
    | broadcast ↦
        if beq Jid-discrete jid status_broadcast_jid
        then ok (wrap_status_broadcast_info lib login config)
        else err broadcast_list
    | group ↦ group_chat (sources.group_info jid)
    | newsletter ↦ newsletter_chat (sources.newsletter_info jid)
    | _ ↦ err unsupported_server
  ]

  unfoldable pub with_history : Option Conversation → ChatInfo → ChatInfo
  with_history none info = info
  with_history (some conv) info = apply_history_info config conv info

  unfoldable pub found_conversation : Jid → Option Conversation → Option Conversation
  found_conversation jid none = sources.conversation jid
  found_conversation jid (some conv) = some conv

  -- What follows the switch, for the conversation that was given, if any.
  unfoldable pub finish_info : Jid → Option Conversation → ChatInfo → ChatInfo
  unfolding with_history found_conversation
  finish_info jid conv info =
      apply_chat_settings config (sources.chat_settings jid)
        (with_history (found_conversation jid conv) info)

  unfoldable pub get_chat_info_of : Jid → Option Conversation → Result Error ChatInfo
  get_chat_info_of jid conv = do info ← wrap_info jid; ok (finish_info jid conv info)

  -- `GetChatInfo`, of a portal ID.
  unfoldable pub get_chat_info : Bytes → Result Error ChatInfo
  get_chat_info id = elim (parse_portal_id lib id) [
    | err e ↦ err bad_portal_id
    | ok jid ↦ get_chat_info_of jid none
  ]
