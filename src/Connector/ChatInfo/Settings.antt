-- ===== src/Connector/ChatInfo/Settings.antt =====
-- Which of the sources of pkg/connector/chatinfo.go decides, and which chats have information.
use whatsapp_matrix_bridge.Common.{
  ◌≡◌, ◌≢◌, ◌↔◌, ◌⊎◌, inl, inr, Option, some, arith, beq_iff, append-nil,
}
use mathlib.Core.Path.{subst}
use whatsapp_matrix_bridge.Common.Result.{ok, err, Result-cases}
use whatsapp_matrix_bridge.Waid.Jid.{Jid, JidLib, Jid-discrete, default_user, group, newsletter}
use whatsapp_matrix_bridge.Wadb.Conversation.{Conversation}
use whatsapp_matrix_bridge.Connector.Ids.{Login}
use whatsapp_matrix_bridge.Connector.Inbox.{status_broadcast_jid}
use whatsapp_matrix_bridge.Connector.ChatInfo.{
  DisappearingSetting, ChatInfo, Config, ChatSettings, local_info, apply_chat_settings,
  apply_history_info, timer_of, timer_updates,
}
use whatsapp_matrix_bridge.Connector.ChatInfo.Group.{GroupInfo}
use whatsapp_matrix_bridge.Connector.ChatInfo.Wrap.{NewsletterInfo}
use whatsapp_matrix_bridge.Connector.ChatInfo.Get.{
  Sources, Error, wrap_info, group_chat, newsletter_chat, with_history, found_conversation,
  finish_info, get_chat_info_of,
}

-- What of the information is the switch's own, and which settings win.
pub record Settled (config : Config) (settings : Option ChatSettings) (wrapped info : ChatInfo)
    : Type 0 where
  pub by_settings :
      (chat : ChatSettings)
      → settings ≡ some chat
      → info.user_local ≡ some (local_info config chat.muted_until chat.pinned chat.archived)
  pub own_timer :
      (timer : DisappearingSetting)
      → wrapped.disappear ≡ some timer
      → (info.disappear ≡ some timer) × (info.extra_updates ≡ wrapped.extra_updates)
  pub kept :
      (info.name ≡ wrapped.name)
      × (info.topic ≡ wrapped.topic)
      × (info.members ≡ wrapped.members)
      × (info.type ≡ wrapped.type)
      × (info.parent_id ≡ wrapped.parent_id)

-- A chat that has information: a direct chat, the status broadcast, or a group or a channel for
-- which WhatsApp answers the request.
pub IsKnown : Sources → Jid → Type 0
IsKnown sources jid =
    (jid.server ≡ default_user)
    ⊎ (jid ≡ status_broadcast_jid)
    ⊎ ((jid.server ≡ group) × ((info : GroupInfo) × (sources.group_info jid ≡ some info)))
    ⊎ ((jid.server ≡ newsletter)
        × ((info : NewsletterInfo) × (sources.newsletter_info jid ≡ some info)))

module _ (lib : JidLib) (login : Login) (config : Config) (sources : Sources) where
  finish_info-Settled :
      (jid : Jid) (conv : Option Conversation) (wrapped : ChatInfo)
      → Settled config
          (sources.chat_settings jid)
          wrapped
          (finish_info lib login config sources jid conv wrapped)
  unfolding finish_info with_history found_conversation apply_chat_settings apply_history_info
      timer_of timer_updates
  finish_info-Settled jid conv wrapped = record {
    by_settings = λ chat e. ground (arith, e);
    own_timer = λ timer e. ground (arith, e, append-nil wrapped.extra_updates);
    kept = ground arith;
  }

  wrap_info-IsKnown :
      (jid : Jid) (wrapped : ChatInfo)
      → wrap_info lib login config sources jid ≡ ok wrapped
      → IsKnown sources jid
  unfolding wrap_info IsKnown group_chat newsletter_chat
  wrap_info-IsKnown jid wrapped h = ground (arith, h, beq_iff Jid-discrete jid status_broadcast_jid)

  wrap_info-ne_err :
      (jid : Jid) (e : Error) → IsKnown sources jid → wrap_info lib login config sources jid ≢ err e
  unfolding wrap_info IsKnown group_chat newsletter_chat
  wrap_info-ne_err jid e known h =
      ground (arith, h, known, beq_iff Jid-discrete jid status_broadcast_jid)

  -- Of the information that getChatInfo answers, name, topic, members, room type and parent are
  -- those of the chat itself; a disappearing timer of its own is not replaced by that of the
  -- history sync, which then sets no time either; and where the settings of the chat load, mute
  -- and tag are those of the settings alone, whatever the history sync, the chat or the
  -- configuration of status broadcasts say.
  pub get_chat_info_of-Settled :
      (jid : Jid) (conv : Option Conversation) (info : ChatInfo)
      → get_chat_info_of lib login config sources jid conv ≡ ok info
      → (wrapped : ChatInfo) × (wrap_info lib login config sources jid ≡ ok wrapped)
        × Settled config (sources.chat_settings jid) wrapped info
  unfolding get_chat_info_of
  get_chat_info_of-Settled jid conv info h =
      elim (Result-cases (wrap_info lib login config sources jid)) [
        | inr (e, failed) ↦ ground (arith, h, failed)
        | inl (wrapped, e) ↦ (
          wrapped,
          e,
          subst (Settled config (sources.chat_settings jid) wrapped) (ground (arith, h, e))
              (finish_info-Settled jid conv wrapped),
        )
      ]

  -- getChatInfo answers exactly for the chats that have information.
  pub get_chat_info_of-IsKnown :
      (jid : Jid) (conv : Option Conversation)
      → ((info : ChatInfo) × (get_chat_info_of lib login config sources jid conv ≡ ok info))
        ↔ IsKnown sources jid
  unfolding get_chat_info_of
  get_chat_info_of-IsKnown jid conv = (
    λ r.
        let (wrapped, e, settled) = get_chat_info_of-Settled jid conv r.0 r.1 in
        wrap_info-IsKnown jid wrapped e,
    λ known. elim (Result-cases (wrap_info lib login config sources jid)) [
      | inr (e, failed) ↦ absurd (wrap_info-ne_err jid e known failed)
      | inl (wrapped, e) ↦
          (finish_info lib login config sources jid conv wrapped, ground (arith, e))
    ],
  )
