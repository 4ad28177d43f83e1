-- ===== src/Connector/ChatInfo/Group.antt =====
-- pkg/connector/chatinfo.go, `wrapGroupInfo`, and the members in `wrapGroupInfoChange`.
use whatsapp_matrix_bridge.Common.{
  ℕ, Bool, true, false, not, Option, none, some, List, [], ◌∷◌, length, if◌then◌else◌, Bytes,
}
use whatsapp_matrix_bridge.Waid.Jid.{Jid, JidLib, empty_jid, is_default_user}
use whatsapp_matrix_bridge.Waid.Id.{make_portal_id, make_user_id}
use whatsapp_matrix_bridge.Connector.Ids.{Login, make_event_sender}
use whatsapp_matrix_bridge.Connector.ChatInfo.{
  join, leave, ChatMember, member_of, room_name, room_avatar, topic, reaction, redaction, EventType,
  PowerLevelOverrides, MemberMap, put, ChatMemberList, after_read, default, space, avatar_fetcher,
  ChatInfo,
}

abbrev pub nobody_pl : ℕ
nobody_pl = 99

abbrev pub super_admin_pl : ℕ
super_admin_pl = 75

abbrev pub admin_pl : ℕ
admin_pl = 50

abbrev pub default_pl : ℕ
default_pl = 0

-- The fields of `types.GroupParticipant` and `types.GroupInfo` that are read.
pub record Participant : Type 0 where
  pub jid : Jid
  pub is_admin : Bool
  pub is_super_admin : Bool

pub record GroupInfo : Type 0 where
  pub name : Bytes
  pub topic : Bytes
  pub is_announce : Bool
  pub is_locked : Bool
  pub is_incognito : Bool
  pub is_parent : Bool
  pub disappearing_timer : ℕ
  pub linked_parent_jid : Jid
  pub participants : List Participant

-- `types.GroupLinkChange`, with whether its type is `GroupLinkChangeTypeParent`.
pub record LinkChange : Type 0 where
  pub is_parent : Bool
  pub group : Jid

pub record Ephemeral : Type 0 where
  pub is_ephemeral : Bool
  pub disappearing_timer : ℕ

-- `events.GroupInfo`; a nil pointer is `none`, and a nil list is empty. Of `unlink` only whether
-- it is set is read, as of `delete`.
pub record GroupChange : Type 0 where
  pub jid : Jid
  pub sender : Option Jid
  pub timestamp : ℕ
  pub name : Option Bytes
  pub topic : Option Bytes
  pub locked : Option Bool
  pub announce : Option Bool
  pub ephemeral : Option Ephemeral
  pub delete : Bool
  pub link : Option LinkChange
  pub unlink : Bool
  pub joined : Option (List Jid)
  pub left : Option (List Jid)
  pub promoted : Option (List Jid)
  pub demoted : Option (List Jid)

pub record ChatInfoChange : Type 0 where
  pub chat_info : Option ChatInfo
  pub member_changes : Option ChatMemberList

abbrev pub pl_if : Bool → ℕ
pl_if b = if b then admin_pl else default_pl

abbrev pub meta_events : ℕ → List (EventType × ℕ)
meta_events pl = (room_name, pl) ∷ (room_avatar, pl) ∷ (topic, pl) ∷ []

unfoldable pub power_level_of : Participant → ℕ
power_level_of p =
    if p.is_super_admin then super_admin_pl else if p.is_admin then admin_pl else default_pl

abbrev pub is_set : {A : Type 0} → Option A → Bool
is_set none = false
is_set (some a) = true

-- What the loops of a change write into the member, which has only a sender.
abbrev pub joins : ChatMember → ChatMember
joins m = m

abbrev pub promotes : ChatMember → ChatMember
promotes m = record m { power_level = some admin_pl }

abbrev pub demotes : ChatMember → ChatMember
demotes m = record m { power_level = some default_pl }

abbrev pub leaves : ChatMember → ChatMember
leaves m = record m { membership = leave }

abbrev pub list_of : Option (List Jid) → List Jid
list_of none = []
list_of (some js) = js

module _ (lib : JidLib) (login : Login) where
  unfoldable pub member_of_participant : Participant → ChatMember
  member_of_participant p = record {
    event_sender = make_event_sender lib login p.jid;
    membership = join;
    power_level = some (power_level_of p);
  }

  -- The loop over the participants.
  unfoldable pub put_participants : List Participant → MemberMap → MemberMap
  unfolding member_of_participant
  put_participants [] members = members
  put_participants (p ∷ ps) members =
      if is_default_user p.jid.server
      then put_participants ps (put (make_user_id p.jid) (member_of_participant p) members)
      else put_participants ps members

  group_power_levels : GroupInfo → PowerLevelOverrides
  group_power_levels info = record {
    events_default = some (pl_if info.is_announce);
    state_default = some nobody_pl;
    ban = some nobody_pl;
    events =
        (room_name, pl_if info.is_locked)
        ∷ (room_avatar, pl_if info.is_locked)
        ∷ (topic, pl_if info.is_locked)
        ∷ (reaction, default_pl)
        ∷ (redaction, default_pl)
        ∷ [];
  }

  unfoldable pub wrap_group_info : GroupInfo → ChatInfo
  unfolding group_power_levels
  wrap_group_info info = record {
    name = some info.name;
    topic = some info.topic;
    avatar = none;
    members = some (record {
      is_full = not info.is_incognito;
      total_member_count = length info.participants;
      other_user_id = [];
      member_map = put_participants info.participants [];
      power_levels = some (group_power_levels info);
    });
    type = some (if info.is_parent then space else default);
    disappear = some (after_read info.disappearing_timer);
    parent_id =
        if lib.is_empty info.linked_parent_jid
        then none
        else some (make_portal_id lib info.linked_parent_jid);
    user_local = none;
    can_backfill = false;
    extra_updates = avatar_fetcher [] empty_jid none ∷ [];
  }

  -- The loop over a list of the change, with what the members of it become.
  unfoldable pub put_all : (ChatMember → ChatMember) → List Jid → MemberMap → MemberMap
  put_all change [] members = members
  put_all change (j ∷ js) members =
      if is_default_user j.server
      then put_all change js
          (put (make_user_id j) (change (member_of (make_event_sender lib login j))) members)
      else put_all change js members

  -- The four loops, the later ones over the earlier ones.
  unfoldable pub changed_members : GroupChange → MemberMap
  changed_members evt = put_all leaves (list_of evt.left) (
      put_all demotes (list_of evt.demoted)
        (put_all promotes (list_of evt.promoted) (put_all joins (list_of evt.joined) [])))
