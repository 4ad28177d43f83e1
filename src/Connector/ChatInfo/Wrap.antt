-- ===== src/Connector/ChatInfo/Wrap.antt =====
-- pkg/connector/chatinfo.go, `wrapDMInfo`, `wrapStatusBroadcastInfo` and `wrapNewsletterInfo`.
use whatsapp_matrix_bridge.Common.{
  ℕ, true, false, Option, none, some, [], ◌∷◌, if◌then◌else◌, Bytes, beq, Bytes-discrete,
}
use whatsapp_matrix_bridge.Common.Text.{codes}
use whatsapp_matrix_bridge.Waid.Jid.{Jid, JidLib, Jid-discrete}
use whatsapp_matrix_bridge.Waid.Id.{make_user_id}
use whatsapp_matrix_bridge.Connector.Ids.{EventSender, Login, make_event_sender}
use whatsapp_matrix_bridge.Connector.ChatInfo.{
  member_of, room_name, room_avatar, topic, reaction, redaction, MemberMap, put, MutedUntil,
  muted_forever, unmuted, Avatar, has_id, remove, default, dm, ChatInfo, no_info, Config,
}
use whatsapp_matrix_bridge.Connector.ChatInfo.Group.{
  nobody_pl, super_admin_pl, admin_pl, default_pl,
}

abbrev pub status_broadcast_topic : Bytes
status_broadcast_topic = codes "WhatsApp status updates from your contacts"

abbrev pub status_broadcast_name : Bytes
status_broadcast_name = codes "WhatsApp Status Broadcast"

abbrev pub private_chat_topic : Bytes
private_chat_topic = codes "WhatsApp private chat"

-- The senders of the two members of a chat with oneself.
abbrev pub own_ghost : Jid → EventSender
own_ghost j = record { is_from_me = false; sender = make_user_id j; sender_login = [] }

abbrev pub own_user : EventSender
own_user = record { is_from_me = true; sender = []; sender_login = [] }

pub data NewsletterRole : Type 0 where
  admin owner other_role : NewsletterRole

pub data NewsletterMute : Type 0 where
  mute_on mute_off other_mute : NewsletterMute

-- The fields of `types.NewsletterMetadata` that are read. The pictures are their IDs; `picture` is
-- `none` for a nil pointer.
pub record NewsletterInfo : Type 0 where
  pub id : Jid
  pub name : Bytes
  pub description : Bytes
  pub subscriber_count : ℕ
  pub picture : Option Bytes
  pub preview : Bytes
  pub viewer : Option (NewsletterRole × NewsletterMute)

role_level : NewsletterRole → ℕ
role_level admin = admin_pl
role_level owner = super_admin_pl
role_level other_role = default_pl

muting : NewsletterMute → Option MutedUntil
muting mute_on = some muted_forever
muting mute_off = some unmuted
muting other_mute = none

viewer_level : Option (NewsletterRole × NewsletterMute) → ℕ
unfolding role_level
viewer_level none = default_pl
viewer_level (some (role, mute)) = role_level role

viewer_mute : Option (NewsletterRole × NewsletterMute) → Option MutedUntil
unfolding muting
viewer_mute none = none
viewer_mute (some (role, mute)) = muting mute

newsletter_avatar : NewsletterInfo → Avatar
newsletter_avatar info = elim info.picture [
  | some id ↦ has_id id
  | none ↦
      if beq Bytes-discrete info.preview [] then remove (codes "remove") else has_id info.preview
]

module _ (lib : JidLib) (login : Login) where
  unfoldable pub dm_members : Jid → MemberMap
  dm_members jid =
      if beq Jid-discrete jid (lib.to_non_ad login.jid)
      then put [] (member_of own_user) (put (make_user_id jid) (member_of (own_ghost jid)) [])
      else put (make_user_id login.jid) (member_of (make_event_sender lib login login.jid))
          (put (make_user_id jid) (member_of (make_event_sender lib login jid)) [])

  unfoldable pub wrap_dm_info : Jid → ChatInfo
  wrap_dm_info jid = record no_info {
    topic = some private_chat_topic;
    members = some (record {
      is_full = true;
      total_member_count = 2;
      other_user_id = make_user_id jid;
      member_map = dm_members jid;
      power_levels = none;
    });
    type = some dm;
  }

  unfoldable pub wrap_status_broadcast_info : Config → ChatInfo
  wrap_status_broadcast_info config = record no_info {
    name = some status_broadcast_name;
    topic = some status_broadcast_topic;
    members = some (record {
      is_full = false;
      total_member_count = 0;
      other_user_id = [];
      member_map =
          put (make_user_id login.jid) (member_of (make_event_sender lib login login.jid)) [];
      power_levels = none;
    });
    type = some default;
    user_local = some (record {
      muted_until = if config.mute_status_broadcast then some muted_forever else none;
      tag =
          if beq Bytes-discrete config.status_broadcast_tag []
          then none
          else some config.status_broadcast_tag;
    });
  }

  unfoldable pub wrap_newsletter_info : NewsletterInfo → ChatInfo
  unfolding viewer_level viewer_mute newsletter_avatar
  wrap_newsletter_info info = record no_info {
    name = some info.name;
    topic = some info.description;
    avatar = some (newsletter_avatar info);
    user_local = some (record { muted_until = viewer_mute info.viewer; tag = none });
    members = some (record {
      is_full = false;
      total_member_count = info.subscriber_count;
      other_user_id = [];
      member_map =
          put (make_user_id login.jid)
            (record (member_of (make_event_sender lib login login.jid)) {
              power_level = some (viewer_level info.viewer);
            })
            [];
      power_levels = some (record {
        events_default = some admin_pl;
        state_default = some nobody_pl;
        ban = some nobody_pl;
        events =
            (room_name, admin_pl)
            ∷ (room_avatar, admin_pl)
            ∷ (topic, admin_pl)
            ∷ (reaction, default_pl)
            ∷ (redaction, default_pl)
            ∷ [];
      });
    });
    type = some default;
  }
