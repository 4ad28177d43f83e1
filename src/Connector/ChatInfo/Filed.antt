-- ===== src/Connector/ChatInfo/Filed.antt =====
-- The keys of the member maps of pkg/connector/chatinfo.go.
use whatsapp_matrix_bridge.Common.{
  ℕ, ◌≡◌, refl, ap, ◌∙◌, sym, Bool, true, false, Option, none, some, List, [], ◌∷◌, All, Bytes,
  arith, beq, Bytes-discrete, Bool-cases, inl, inr, if◌then◌else◌,
}
use mathlib.Core.Path.{subst}
use whatsapp_matrix_bridge.Wadb.Conversation.{Conversation}
use whatsapp_matrix_bridge.Common.Result.{ok}
use whatsapp_matrix_bridge.Waid.Jid.{Jid, JidLib, Jid-discrete, is_default_user}
use whatsapp_matrix_bridge.Waid.Id.{make_user_id}
use whatsapp_matrix_bridge.Connector.Ids.{Login, make_event_sender}
use whatsapp_matrix_bridge.Connector.ChatInfo.{
  ChatMember, member_of, MemberMap, put, ChatInfo, Config,
}
use whatsapp_matrix_bridge.Connector.ChatInfo.Group.{
  Participant, GroupChange, put_participants, member_of_participant, put_all, joins, promotes,
  demotes, leaves, list_of, changed_members, wrap_group_info, GroupInfo,
}
use whatsapp_matrix_bridge.Connector.ChatInfo.Wrap.{
  dm_members, NewsletterInfo, wrap_dm_info, wrap_status_broadcast_info, wrap_newsletter_info,
}
use whatsapp_matrix_bridge.Connector.ChatInfo.Change.{has_members, wrap_group_info_change}
use whatsapp_matrix_bridge.Connector.ChatInfo.Rooms.{map_of, info_map, changed_map, changed_map-lem}
use whatsapp_matrix_bridge.Connector.ChatInfo.Get.{
  Sources, wrap_info, group_chat, newsletter_chat, get_chat_info_of,
}
use whatsapp_matrix_bridge.Connector.ChatInfo.Settings.{get_chat_info_of-Settled}

-- Every member is filed under the ID of its sender.
pub IsFiled : MemberMap → Type 0
IsFiled = All (λ entry. entry.0 ≡ entry.1.event_sender.sender)

put-IsFiled :
    (k : Bytes) (m : ChatMember) (members : MemberMap)
    → k ≡ m.event_sender.sender
    → IsFiled members
    → IsFiled (put k m members)
unfolding put IsFiled
put-IsFiled k m [] e h = (e, tt)
put-IsFiled k m ((q, n) ∷ rest) e (here, there) = elim (Bool-cases (beq Bytes-discrete q k)) [
  | inl y ↦ rw (y) (e, there)
  | inr y ↦ rw (y) (here, put-IsFiled k m rest e there)
]

make_event_sender-sender :
    (lib : JidLib) (login : Login) (j : Jid)
    → make_user_id j ≡ (make_event_sender lib login j).sender
unfolding make_event_sender make_user_id
make_event_sender-sender lib login j = ground arith

module _ (lib : JidLib) (login : Login) where
  put_participants-IsFiled :
      (ps : List Participant) (members : MemberMap)
      → IsFiled members
      → IsFiled (put_participants lib login ps members)
  unfolding put_participants member_of_participant
  put_participants-IsFiled [] members h = h
  put_participants-IsFiled (p ∷ ps) members h = elim (Bool-cases (is_default_user p.jid.server)) [
    | inl y ↦ rw (y) (
        put_participants-IsFiled ps _
          (put-IsFiled _ _ members (make_event_sender-sender lib login p.jid) h))
    | inr y ↦ rw (y) (put_participants-IsFiled ps members h)
  ]

  put_all-IsFiled :
      (change : ChatMember → ChatMember)
      → ((m : ChatMember) → (change m).event_sender ≡ m.event_sender)
      → (js : List Jid) (members : MemberMap) → IsFiled members
      → IsFiled (put_all lib login change js members)
  unfolding put_all
  put_all-IsFiled change keeps [] members h = h
  put_all-IsFiled change keeps (j ∷ js) members h = elim (Bool-cases (is_default_user j.server)) [
    | inl y ↦ rw (y) (
        put_all-IsFiled change keeps js _ (
          put-IsFiled _ _ members
            (make_event_sender-sender lib login j
              ∙ ap (λ s. s.sender) (sym (keeps (member_of (make_event_sender lib login j)))))
            h))
    | inr y ↦ rw (y) (put_all-IsFiled change keeps js members h)
  ]

  changed_members-IsFiled : (evt : GroupChange) → IsFiled (changed_members lib login evt)
  unfolding changed_members IsFiled
  changed_members-IsFiled evt =
      put_all-IsFiled leaves (λ m. refl) (list_of evt.left) _
        (put_all-IsFiled demotes (λ m. refl) (list_of evt.demoted) _
          (put_all-IsFiled promotes (λ m. refl) (list_of evt.promoted) _
            (put_all-IsFiled joins (λ m. refl) (list_of evt.joined) [] tt)))

  dm_members-IsFiled : (j : Jid) → IsFiled (dm_members lib login j)
  unfolding dm_members IsFiled
  dm_members-IsFiled j = elim (Bool-cases (beq Jid-discrete j (lib.to_non_ad login.jid))) [
    | inl y ↦ rw (y) (put-IsFiled _ _ _ refl (put-IsFiled _ _ [] refl tt))
    | inr y ↦ rw (y) (
        put-IsFiled _ _ _ (make_event_sender-sender lib login login.jid)
          (put-IsFiled _ _ [] (make_event_sender-sender lib login j) tt))
  ]

  own_member-IsFiled :
      (level : Option ℕ)
      → IsFiled (
          put
            (make_user_id login.jid)
            (record (member_of (make_event_sender lib login login.jid)) { power_level = level })
            [])
  unfolding IsFiled
  own_member-IsFiled level = put-IsFiled _ _ [] (make_event_sender-sender lib login login.jid) tt

  wrap_group_info-IsFiled : (info : GroupInfo) → IsFiled (info_map (wrap_group_info lib login info))
  unfolding wrap_group_info IsFiled
  wrap_group_info-IsFiled info = put_participants-IsFiled info.participants [] tt

  wrap_newsletter_info-IsFiled :
      (info : NewsletterInfo) → IsFiled (info_map (wrap_newsletter_info lib login info))
  unfolding wrap_newsletter_info
  wrap_newsletter_info-IsFiled info = own_member-IsFiled _

  IsFiled-if :
      (b : Bool) (evt : GroupChange) → IsFiled (if b then changed_members lib login evt else [])
  unfolding IsFiled
  IsFiled-if true evt = changed_members-IsFiled evt
  IsFiled-if false evt = tt

  wrap_dm_info-IsFiled : (jid : Jid) → IsFiled (info_map (wrap_dm_info lib login jid))
  unfolding wrap_dm_info
  wrap_dm_info-IsFiled jid = dm_members-IsFiled jid

  wrap_status_broadcast_info-IsFiled :
      (config : Config) → IsFiled (info_map (wrap_status_broadcast_info lib login config))
  unfolding wrap_status_broadcast_info
  wrap_status_broadcast_info-IsFiled config = own_member-IsFiled none

  module _ (config : Config) (sources : Sources) where
    group_chat-IsFiled :
        (info : Option GroupInfo) (wrapped : ChatInfo)
        → group_chat lib login config sources info ≡ ok wrapped
        → IsFiled (info_map wrapped)
    unfolding group_chat
    group_chat-IsFiled none wrapped h = ground (arith, h)
    group_chat-IsFiled (some info) wrapped h = ground (arith, h, wrap_group_info-IsFiled info)

    newsletter_chat-IsFiled :
        (info : Option NewsletterInfo) (wrapped : ChatInfo)
        → newsletter_chat lib login config sources info ≡ ok wrapped
        → IsFiled (info_map wrapped)
    unfolding newsletter_chat
    newsletter_chat-IsFiled none wrapped h = ground (arith, h)
    newsletter_chat-IsFiled (some info) wrapped h =
        ground (arith, h, wrap_newsletter_info-IsFiled info)

    wrap_info-IsFiled :
        (jid : Jid) (wrapped : ChatInfo)
        → wrap_info lib login config sources jid ≡ ok wrapped
        → IsFiled (info_map wrapped)
    unfolding wrap_info
    wrap_info-IsFiled jid wrapped h = ground (
      arith,
      h,
      wrap_dm_info-IsFiled jid,
      wrap_status_broadcast_info-IsFiled config,
      group_chat-IsFiled (sources.group_info jid) wrapped,
      newsletter_chat-IsFiled (sources.newsletter_info jid) wrapped,
    )

    -- Every member is filed under the user ID of its own sender, in the members of any chat for
    -- which getChatInfo answers and in those of any change of a group.
    pub members-IsFiled :
        (jid : Jid) (conv : Option Conversation) (info : ChatInfo) (evt : GroupChange)
        → get_chat_info_of lib login config sources jid conv ≡ ok info
        → IsFiled (info_map info) × IsFiled (changed_map (wrap_group_info_change lib login evt))
    members-IsFiled jid conv info evt h =
        let (wrapped, e, settled) =
          get_chat_info_of-Settled lib login config sources jid conv info h in
        (
          subst (λ m. IsFiled (map_of m)) (sym settled.kept.2) (wrap_info-IsFiled jid wrapped e),
          subst IsFiled (sym (changed_map-lem lib login evt)) (IsFiled-if (has_members evt) evt),
        )
