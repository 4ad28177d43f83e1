-- ===== src/Connector/Groups.antt =====
-- pkg/connector/client.go: the joined groups, as they are returned, formatted and posted. The maps
-- that are encoded as JSON are records, with a field for each key.
pub mod Send
pub mod Filter
pub mod Sent
pub mod Tests
use whatsapp_matrix_bridge.Common.{
  ℕ, ◌-◌, Bool, true, false, ◌&&◌, ◌||◌, not, Option, none, some, List, [], ◌∷◌, map, length, ltb,
  ◌==◌, if◌then◌else◌, Bytes, beq, Bytes-discrete,
}
use whatsapp_matrix_bridge.Common.Clock.{Instant, day}
use whatsapp_matrix_bridge.Common.Decimal.{format_uint}
use whatsapp_matrix_bridge.Common.Result.{Result, ok, err}
use whatsapp_matrix_bridge.Waid.Jid.{Jid, JidLib}

-- The fields of `types.GroupParticipant` and `types.GroupInfo` that are read; `add_request` is
-- whether the pointer is set.
pub record Participant : Type 0 where
  pub jid : Jid
  pub is_admin : Bool
  pub is_super_admin : Bool
  pub display_name : Bytes
  pub error : ℕ
  pub add_request : Bool

pub record Group : Type 0 where
  pub jid : Jid
  pub name : Bytes
  pub topic : Bytes
  pub is_parent : Bool
  pub participants : List Participant
  pub member_add_mode : Bytes
  pub default_membership_approval_mode : Bytes
  pub is_join_approval_required : Bool
  pub created : ℕ
  pub linked_parent_jid : Jid
  pub owner_jid : Jid

pub record WhatsAppParticipant : Type 0 where
  pub id : Bytes
  pub name : Bytes
  pub is_admin : Bool
  pub is_super_admin : Bool
  pub display_name : Bytes
  pub error : Bytes
  pub add_request : Bool

pub record WhatsAppGroup : Type 0 where
  pub id : Bytes
  pub name : Bytes
  pub topic : Bytes
  pub is_parent : Bool
  pub participants : List WhatsAppParticipant
  pub member_add_mode : Bytes
  pub default_membership_approval_mode : Bytes

-- `groupData` of GetFormattedGroups: `parent` is `none` where the group is not a parent, and then
-- the keys `isParentGroup` and `defaultMembershipApprovalMode` are absent.
pub record FormattedGroup : Type 0 where
  pub jid : Bytes
  pub name : Bytes
  pub participant_count : ℕ
  pub member_add_mode : Bytes
  pub join_approval_required : Bool
  pub parent : Option Bytes

-- The entries of the basic and of the raw schema of SendGroupsToReMatchBackend.
pub record BasicGroup : Type 0 where
  pub jid : Bytes
  pub name : Bytes
  pub participant_count : ℕ

pub record RawGroup : Type 0 where
  pub jid : Bytes
  pub name : Bytes
  pub topic : Bytes
  pub is_parent : Bool
  pub participants : List WhatsAppParticipant
  pub member_add_mode : Bytes
  pub created : Bytes
  pub join_approval_required : Bool
  pub parent : Option Bytes
  pub linked_parent_jid : Option Bytes
  pub owner_jid : Option Bytes

-- The schemas, each with `userWANumber`. A nil slice, which is encoded as `null`, is `none`.
pub data Schema : Type 0 where
  formatted : Bytes → Option (List FormattedGroup) → Schema
  basic : Bytes → List BasicGroup → Schema
  raw : Bytes → List RawGroup → Schema

pub data Error : Type 0 where
  not_connected groups_failed marshal_failed request_failed bad_status : Error

-- What an HTTP request comes to: it is not created, it fails, or it has a response.
pub data Reply : Type 0 where
  not_created failed : Reply
  status : ℕ → Reply

-- The client: whether it is connected and logged in, its JID, `LastHistorySync` of the login's
-- metadata, and the same of the login as it is stored.
pub record Session : Type 0 where
  pub logged_in : Bool
  pub jid : Jid
  pub last_history_sync : Instant
  pub stored_history_sync : Instant

-- `saves` is whether the database takes the login.
unfoldable pub force_sync : Bool → ℕ → Session → Session
force_sync saves now s = record s {
  last_history_sync = some (now - day);
  stored_history_sync = if saves then some (now - day) else s.stored_history_sync;
}

-- The loop over the groups of SendGroupsToReMatchBackend, and the one over a group's participants
-- in it.
unfoldable pub has_participant : Bytes → List Participant → Bool
has_participant user [] = false
has_participant user (p ∷ ps) =
    if beq Bytes-discrete p.jid.user user then true else has_participant user ps

unfoldable pub is_wanted : Bytes → Group → Bool
is_wanted user g =
    if ltb (length g.participants) 3 && not g.is_parent
    then false
    else if g.is_parent
    then has_participant user g.participants
    else true

unfoldable pub filter_groups : Bytes → List Group → List Group
filter_groups user [] = []
filter_groups user (g ∷ gs) =
    let rest = filter_groups user gs in if is_wanted user g then g ∷ rest else rest

-- `sendJSONRequest`
unfoldable pub send_json_request : Reply → Option Error
send_json_request not_created = some request_failed
send_json_request failed = some request_failed
send_json_request (status code) = if code == 200 then none else some bad_status

-- The slice that appending these to a nil slice gives.
unfoldable pub or_nil : List FormattedGroup → Option (List FormattedGroup)
or_nil [] = none
or_nil (f ∷ fs) = some (f ∷ fs)

module _ (lib : JidLib) where
  open lib use {string_of, is_empty}

  unfoldable pub to_participant : Participant → WhatsAppParticipant
  to_participant p = record {
    id = string_of p.jid;
    name = p.jid.user;
    is_admin = p.is_admin;
    is_super_admin = p.is_super_admin;
    display_name = p.display_name;
    error = if p.error == 0 then [] else format_uint p.error;
    add_request = p.add_request;
  }

  unfoldable pub to_whatsapp_group : Group → WhatsAppGroup
  to_whatsapp_group g = record {
    id = string_of g.jid;
    name = g.name;
    topic = g.topic;
    is_parent = g.is_parent;
    participants = map to_participant g.participants;
    member_add_mode = g.member_add_mode;
    default_membership_approval_mode =
        if g.is_parent then g.default_membership_approval_mode else [];
  }

  unfoldable pub to_formatted_group : Group → FormattedGroup
  to_formatted_group g = record {
    jid = string_of g.jid;
    name = g.name;
    participant_count = length g.participants;
    member_add_mode = g.member_add_mode;
    join_approval_required = g.is_join_approval_required;
    parent = if g.is_parent then some g.default_membership_approval_mode else none;
  }

  unfoldable pub to_basic_group : Group → BasicGroup
  to_basic_group g = record {
    jid = string_of g.jid;
    name = g.name;
    participant_count = length g.participants;
  }

  non_empty_jid : Jid → Option Bytes
  non_empty_jid j = if is_empty j then none else some (string_of j)

  -- `format` is `time.Time.Format` with RFC 3339.
  unfoldable pub to_raw_group : (ℕ → Bytes) → Group → RawGroup
  unfolding non_empty_jid
  to_raw_group format g = record {
    jid = string_of g.jid;
    name = g.name;
    topic = g.topic;
    is_parent = g.is_parent;
    participants = map to_participant g.participants;
    member_add_mode = g.member_add_mode;
    created = format g.created;
    join_approval_required = g.is_join_approval_required;
    parent = if g.is_parent then some g.default_membership_approval_mode else none;
    linked_parent_jid = non_empty_jid g.linked_parent_jid;
    owner_jid = non_empty_jid g.owner_jid;
  }

  -- Each function takes whether the login is saved, the time and the groups that whatsmeow
  -- answers, `none` for an error.
  unfoldable pub get_joined_groups :
      Bool → ℕ → Option (List Group) → Session → Session × Result Error (List WhatsAppGroup)
  get_joined_groups saves now groups s =
      if s.logged_in
      then (
        force_sync saves now s,
        elim groups [ none ↦ err groups_failed | some gs ↦ ok (map to_whatsapp_group gs) ],
      )
      else (s, err not_connected)

  -- The loops of GetFormattedGroups: that over the participants of a community, and that over the
  -- groups, which skips some and appends what it makes of the others.
  unfoldable pub is_user_participant : Bytes → List Participant → Bool
  is_user_participant user [] = false
  is_user_participant user (p ∷ ps) =
      if beq Bytes-discrete p.jid.user user then true else is_user_participant user ps

  unfoldable pub format_groups : Bytes → List Group → List FormattedGroup
  format_groups user [] = []
  format_groups user (g ∷ gs) =
      let rest = format_groups user gs in
      if ltb (length g.participants) 3 && not g.is_parent
      then rest
      else if g.is_parent && not (is_user_participant user g.participants)
      then rest
      else to_formatted_group g ∷ rest

  -- An empty list of groups is answered with an empty list. Else `jsonGroups` starts as a nil slice.
  unfoldable pub formatted_of : Bytes → List Group → Option (List FormattedGroup)
  formatted_of user [] = some []
  formatted_of user (g ∷ gs) = or_nil (format_groups user (g ∷ gs))

  marshal_or_fail : (Schema → Option Bytes) → Schema → Result Error Bytes
  marshal_or_fail marshal schema = elim (marshal schema) [
    | none ↦ err marshal_failed
    | some b ↦ ok b
  ]

  unfoldable pub get_formatted_groups :
      (Schema → Option Bytes)
      → Bool
      → ℕ
      → Option (List Group)
      → Session
      → Session × Result Error Bytes
  unfolding marshal_or_fail
  get_formatted_groups marshal saves now groups s =
      if s.logged_in
      then (
        force_sync saves now s,
        elim groups [
          | none ↦ err groups_failed
          | some gs ↦ marshal_or_fail marshal (formatted s.jid.user (formatted_of s.jid.user gs))
        ],
      )
      else (s, err not_connected)
