-- ===== src/Connector/ChatInfo/Tests.antt =====
-- The functions of pkg/connector/chatinfo.go at a concrete group.
use whatsapp_matrix_bridge.Common.{
  ◌≡◌, refl, true, false, none, some, List, [], ◌∷◌, beq, Bytes-discrete, ℕ_discrete,
}
use whatsapp_matrix_bridge.Common.Text.{codes}
use whatsapp_matrix_bridge.Common.Result.{ok}
use whatsapp_matrix_bridge.Waid.Jid.{Jid, new_jid, default_user, empty_jid}
use whatsapp_matrix_bridge.Waid.Jid.Plain.{plain_jids, alice, friends}
use whatsapp_matrix_bridge.Connector.Ids.{Login}
use whatsapp_matrix_bridge.Connector.ChatInfo.{Config, ChatSettings, ChatInfo}
use whatsapp_matrix_bridge.Connector.ChatInfo.Group.{
  admin_pl, GroupInfo, GroupChange, wrap_group_info,
}
use whatsapp_matrix_bridge.Connector.ChatInfo.Change.{wrap_group_info_change}
use whatsapp_matrix_bridge.Connector.ChatInfo.Rooms.{
  update, nobody, info_map, changed_map, room_after, level_in, level_after_all, level_after, each,
}
use whatsapp_matrix_bridge.Connector.ChatInfo.Roles.{room_after-wrap_group_info}
use whatsapp_matrix_bridge.Connector.ChatInfo.Get.{Sources, wrap_info, group_chat, get_chat_info_of}
use whatsapp_matrix_bridge.Connector.ChatInfo.Settings.{Settled, get_chat_info_of-Settled}
use whatsapp_matrix_bridge.Connector.ChatInfo.Filed.{IsFiled, members-IsFiled}

abbrev bob : Jid
bob = new_jid (codes "15550002") default_user

abbrev login : Login
login = record { id = codes "15550001"; jid = alice; split_portals = false }

abbrev info : GroupInfo
info = record {
  name = codes "friends";
  topic = [];
  is_announce = false;
  is_locked = true;
  is_incognito = false;
  is_parent = false;
  disappearing_timer = 86400;
  linked_parent_jid = empty_jid;
  participants = record { jid = alice; is_admin = true; is_super_admin = false } ∷ [];
}

abbrev change : GroupChange
change = record {
  jid = friends;
  sender = some alice;
  timestamp = 20;
  name = none;
  topic = none;
  locked = none;
  announce = some true;
  ephemeral = none;
  delete = false;
  link = none;
  unlink = false;
  joined = some (bob ∷ []);
  left = none;
  promoted = none;
  demoted = none;
}

-- Bob joins, becomes an admin, and Alice leaves.
abbrev changes : List GroupChange
changes =
    change
    ∷ record change { joined = none; promoted = some (bob ∷ []) }
    ∷ record change { joined = none; left = some (alice ∷ []) }
    ∷ []

room_after-wrap_group_info_example :
    room_after plain_jids login changes
      (update (info_map (wrap_group_info plain_jids login info)) nobody)
      bob.user
    ≡ level_after_all bob.user changes (level_in bob.user info.participants none)
room_after-wrap_group_info_example =
    room_after-wrap_group_info plain_jids login info changes bob.user

bob_is_admin :
    level_after_all bob.user changes (level_in bob.user info.participants none) ≡ some admin_pl
unfolding level_after_all level_after each level_in beq Bytes-discrete ℕ_discrete
bob_is_admin = refl

abbrev config : Config
config = record {
  pinned_tag = codes "m.favourite";
  archive_tag = codes "m.lowpriority";
  mute_status_broadcast = true;
  status_broadcast_tag = codes "m.lowpriority";
}

abbrev settings : ChatSettings
settings = record { muted_until = none; pinned = true; archived = false }

abbrev sources : Sources
sources = record {
  group_info = λ j. some info;
  newsletter_info = λ j. none;
  conversation = λ j. none;
  chat_settings = λ j. some settings;
}

abbrev wrapped : ChatInfo
wrapped = wrap_group_info plain_jids login info

found : (i : ChatInfo) × (get_chat_info_of plain_jids login config sources friends none ≡ ok i)
unfolding get_chat_info_of wrap_info group_chat
found = (_, refl)

get_chat_info_of-Settled_example :
    (w : ChatInfo) × (wrap_info plain_jids login config sources friends ≡ ok w)
    × Settled config (sources.chat_settings friends) w found.0
get_chat_info_of-Settled_example =
    get_chat_info_of-Settled plain_jids login config sources friends none found.0 found.1

members-IsFiled_example :
    IsFiled (info_map found.0)
    × IsFiled (changed_map (wrap_group_info_change plain_jids login change))
members-IsFiled_example =
    members-IsFiled plain_jids login config sources friends none found.0 change found.1
