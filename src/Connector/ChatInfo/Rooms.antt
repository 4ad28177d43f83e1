-- ===== src/Connector/ChatInfo/Rooms.antt =====
-- What the member maps of pkg/connector/chatinfo.go mean, as who is in a room with which level, and
-- what the groups and the changes mean of which they are made.
use whatsapp_matrix_bridge.Common.{
  ℕ, ◌≡◌, Bool, ◌&&◌, Option, none, some, List, [], ◌∷◌, if◌then◌else◌, Bytes, beq, beq_iff,
  Bytes-discrete, arith,
}
use whatsapp_matrix_bridge.Waid.Jid.{Jid, JidLib, is_default_user}
use whatsapp_matrix_bridge.Connector.Ids.{Login}
use whatsapp_matrix_bridge.Connector.ChatInfo.{
  leave, ChatMember, MemberMap, put, lookup, ChatMemberList, ChatInfo,
}
use whatsapp_matrix_bridge.Connector.ChatInfo.Group.{
  admin_pl, default_pl, Participant, GroupChange, power_level_of, list_of, changed_members,
  ChatInfoChange,
}
use whatsapp_matrix_bridge.Connector.ChatInfo.Change.{wrap_group_info_change, has_members}

pub lookup-put :
    (k : Bytes) (m : ChatMember) (members : MemberMap) (q : Bytes)
    → lookup q (put k m members) ≡ (if beq Bytes-discrete k q then some m else lookup q members)
unfolding put lookup
lookup-put k m [] q = ground arith
lookup-put k m ((p, n) ∷ rest) q = ground (
  arith,
  lookup-put k m rest q,
  beq_iff Bytes-discrete p k,
  beq_iff Bytes-discrete p q,
  beq_iff Bytes-discrete k q,
)

-- A room by user: the power level of each member.
abbrev pub Room : Type 0
Room = Bytes → Option ℕ

-- What an entry makes of a user: a member that leaves is out; another is in, with the level that
-- the entry has, or else the level that they had.
unfoldable pub become : ChatMember → Option ℕ → Option ℕ
become m old = elim m.membership [
  | leave ↦ none
  | _ ↦ elim m.power_level [
    | some pl ↦ some pl
    | none ↦ elim old [ none ↦ some default_pl | some pl ↦ some pl ]
  ]
]

unfoldable pub update : MemberMap → Room → Room
update members room q = elim (lookup q members) [ none ↦ room q | some m ↦ become m (room q) ]

abbrev pub nobody : Room
nobody q = none

abbrev pub map_of : Option ChatMemberList → MemberMap
map_of none = []
map_of (some members) = members.member_map

-- The member maps of a group's information and of a change, empty where there is no list.
abbrev pub info_map : ChatInfo → MemberMap
info_map info = map_of info.members

abbrev pub changed_map : ChatInfoChange → MemberMap
changed_map c = map_of c.member_changes

-- The groups of WhatsApp, for one user: whether a JID is that user's, and the power level that
-- their part in the group gives, `none` where they are not in it.
abbrev pub is_user : Bytes → Jid → Bool
is_user q j = is_default_user j.server && beq Bytes-discrete j.user q

unfoldable pub level_in : Bytes → List Participant → Option ℕ → Option ℕ
level_in q [] old = old
level_in q (p ∷ ps) old = level_in q ps (if is_user q p.jid then some (power_level_of p) else old)

-- A step for each time that the user is named.
unfoldable pub each : (Option ℕ → Option ℕ) → Bytes → List Jid → Option ℕ → Option ℕ
each f q [] old = old
each f q (j ∷ js) old = each f q js (if is_user q j then f old else old)

abbrev pub enter : Option ℕ → Option ℕ
enter none = some default_pl
enter (some pl) = some pl

-- What a change of the group makes of the user: those who join, then those who become admins, then
-- those who are admins no longer, then those who leave.
unfoldable pub level_after : Bytes → GroupChange → Option ℕ → Option ℕ
level_after q evt old =
    each (λ l. none) q (list_of evt.left)
      (each (λ l. some default_pl) q (list_of evt.demoted)
        (each (λ l. some admin_pl) q (list_of evt.promoted)
          (each enter q (list_of evt.joined) old)))

-- The room after a group's information and then its changes, one after another.
unfoldable pub room_after : JidLib → Login → List GroupChange → Room → Room
room_after lib login [] room = room
room_after lib login (evt ∷ evts) room =
    room_after lib login evts (update (changed_map (wrap_group_info_change lib login evt)) room)

unfoldable pub level_after_all : Bytes → List GroupChange → Option ℕ → Option ℕ
level_after_all q [] old = old
level_after_all q (evt ∷ evts) old = level_after_all q evts (level_after q evt old)

pub changed_map-lem :
    (lib : JidLib) (login : Login) (evt : GroupChange)
    → changed_map (wrap_group_info_change lib login evt)
      ≡ (if has_members evt then changed_members lib login evt else [])
unfolding wrap_group_info_change
changed_map-lem lib login evt = ground arith
