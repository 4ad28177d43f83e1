-- ===== src/Connector/ChatInfo/Change.antt =====
-- pkg/connector/chatinfo.go, `wrapGroupInfoChange`: the changes of a group.
use whatsapp_matrix_bridge.Common.{
  ℕ, Bool, false, ◌||◌, Option, none, some, [], if◌then◌else◌, Bytes,
}
use whatsapp_matrix_bridge.Waid.Jid.{JidLib}
use whatsapp_matrix_bridge.Waid.Id.{make_portal_id}
use whatsapp_matrix_bridge.Connector.Ids.{Login}
use whatsapp_matrix_bridge.Connector.ChatInfo.{
  PowerLevelOverrides, DisappearingSetting, off, after_read, ChatInfo, no_info,
}
use whatsapp_matrix_bridge.Connector.ChatInfo.Group.{
  LinkChange, Ephemeral, GroupChange, ChatInfoChange, pl_if, meta_events, is_set, changed_members,
}

timer_change : Option Ephemeral → Option DisappearingSetting
timer_change none = none
timer_change (some e) = some (if e.is_ephemeral then after_read e.disappearing_timer else off)

-- A link after an unlink.
unfoldable pub parent_change : JidLib → Bool → Option LinkChange → Option Bytes
parent_change lib unlink none = if unlink then some [] else none
parent_change lib unlink (some link) =
    if link.is_parent
    then some (make_portal_id lib link.group)
    else if unlink
    then some []
    else none

unfoldable pub info_change : JidLib → GroupChange → Option ChatInfo
unfolding timer_change
info_change lib evt =
    if is_set evt.name || is_set evt.topic || is_set evt.ephemeral || evt.unlink || is_set evt.link
    then some (record no_info {
      name = evt.name;
      topic = evt.topic;
      disappear = timer_change evt.ephemeral;
      parent_id = parent_change lib evt.unlink evt.link;
    })
    else none

default_change : Option Bool → Option ℕ
default_change none = none
default_change (some is_announce) = some (pl_if is_announce)

unfoldable pub power_change : GroupChange → Option PowerLevelOverrides
unfolding default_change
power_change evt =
    if is_set evt.announce || is_set evt.locked
    then some (record {
      events_default = default_change evt.announce;
      state_default = none;
      ban = none;
      events = elim evt.locked [ none ↦ [] | some is_locked ↦ meta_events (pl_if is_locked) ];
    })
    else none

unfoldable pub has_members : GroupChange → Bool
has_members evt = is_set evt.joined || is_set evt.left || is_set evt.promoted || is_set evt.demoted

module _ (lib : JidLib) (login : Login) where
  unfoldable pub wrap_group_info_change : GroupChange → ChatInfoChange
  unfolding has_members
  wrap_group_info_change evt = record {
    chat_info = info_change lib evt;
    member_changes =
        if has_members evt || is_set evt.announce || is_set evt.locked
        then some (record {
          is_full = false;
          total_member_count = 0;
          other_user_id = [];
          member_map = if has_members evt then changed_members lib login evt else [];
          power_levels = power_change evt;
        })
        else none;
  }
