-- ===== src/Connector/Groups/Tests.antt =====
-- The calls of pkg/connector/client.go at concrete groups.
use whatsapp_matrix_bridge.Common.{
  ℕ, ◌≡◌, refl, ◌↔◌, ◌≢◌, Bool, true, false, Option, none, some, List, [], ◌∷◌, map, Bytes, arith,
  beq, Bytes-discrete, ℕ_discrete,
}
use whatsapp_matrix_bridge.Common.Text.{codes}
use whatsapp_matrix_bridge.Waid.Jid.{new_jid, default_user, empty_jid}
use whatsapp_matrix_bridge.Waid.Jid.Plain.{plain_jids, alice, friends}
use whatsapp_matrix_bridge.Connector.HistorySync.{full}
use whatsapp_matrix_bridge.Connector.HistorySync.Tests as Sync
use whatsapp_matrix_bridge.Connector.Groups.{
  Participant, Group, Schema, status, Session, has_participant, is_wanted, filter_groups,
  formatted_of, to_basic_group, get_joined_groups, get_formatted_groups, send_json_request,
}
use whatsapp_matrix_bridge.Connector.Groups.Send.{
  post_both, posts, post_encoded, send_groups_to_rematch_backend,
}
use whatsapp_matrix_bridge.Connector.Groups.Filter.{basic_of, or_empty, formatted_of-basic}
use whatsapp_matrix_bridge.Connector.Groups.Sent.{
  Accepted, send_groups_to_rematch_backend-Accepted, synced, IsStored, calls_force_sync,
}

abbrev member : Bytes → Participant
member user = record {
  jid = new_jid user default_user;
  is_admin = false;
  is_super_admin = false;
  display_name = [];
  error = 0;
  add_request = false;
}

abbrev group_of : Bytes → Bool → List Participant → Group
group_of name is_parent ps = record {
  jid = friends;
  name = name;
  topic = [];
  is_parent = is_parent;
  participants = ps;
  member_add_mode = codes "admin_add";
  default_membership_approval_mode = codes "request_required";
  is_join_approval_required = false;
  created = 5;
  linked_parent_jid = empty_jid;
  owner_jid = alice;
}

-- Two members; a community without the user; a community with the user.
abbrev pair : Group
pair = group_of (codes "pair") false (member (codes "1") ∷ member (codes "2") ∷ [])

abbrev foreign : Group
foreign = group_of (codes "foreign") true (member (codes "1") ∷ [])

abbrev own : Group
own = group_of (codes "own") true (member (codes "15550001") ∷ [])

abbrev joined : List Group
joined = pair ∷ foreign ∷ own ∷ []

kept : filter_groups alice.user joined ≡ own ∷ []
unfolding filter_groups is_wanted has_participant beq Bytes-discrete ℕ_discrete
kept = refl

abbrev session : Session
session = record {
  logged_in = true;
  jid = alice;
  last_history_sync = some 200000;
  stored_history_sync = some 200000;
}

abbrev encode : Schema → Option Bytes
encode (Schema.formatted user gs) = some (codes "f")
encode (Schema.basic user gs) = some (codes "b")
encode (Schema.raw user gs) = some (codes "r")

abbrev format : ℕ → Bytes
format t = codes "2024"

accepted :
    (send_groups_to_rematch_backend plain_jids format encode
      (status 200)
      (status 200)
      true
      300000
      (some joined)
      session).1.error
    ≡ none
unfolding send_groups_to_rematch_backend post_encoded post_both posts send_json_request
accepted = refl

send_groups_to_rematch_backend-Accepted_example :
    Accepted plain_jids format encode alice.user
      (some joined)
      (send_groups_to_rematch_backend plain_jids format encode
        (status 200)
        (status 200)
        true
        300000
        (some joined)
        session).1.posted
send_groups_to_rematch_backend-Accepted_example =
    send_groups_to_rematch_backend-Accepted plain_jids format encode (status 200) (status 200) true
      300000 (some joined) session accepted

formatted_of-basic_example :
    (map basic_of (or_empty (formatted_of plain_jids alice.user (pair ∷ [])))
      ≡ map (to_basic_group plain_jids) (filter_groups alice.user (pair ∷ [])))
    × ((formatted_of plain_jids alice.user (pair ∷ []) ≡ none)
        ↔ (((pair ∷ []) ≢ []) × (filter_groups alice.user (pair ∷ []) ≡ [])))
formatted_of-basic_example = formatted_of-basic plain_jids alice.user (pair ∷ [])

-- The event of the history sync's tests, after a sync that would have dropped it.
calls_force_sync_example :
    IsStored Sync.parse Sync.marshal plain_jids
      (codes "b")
      (codes "1")
      Sync.database
      300001
      300002
      Sync.first
      (synced Sync.empty (get_joined_groups plain_jids true 300000 (some joined) session).0)
    × IsStored Sync.parse Sync.marshal plain_jids
        (codes "b")
        (codes "1")
        Sync.database
        300001
        300002
        Sync.first
        (synced Sync.empty
          (get_formatted_groups plain_jids encode true 300000 (some joined) session).0)
    × IsStored Sync.parse Sync.marshal plain_jids
        (codes "b")
        (codes "1")
        Sync.database
        300001
        300002
        Sync.first
        (synced Sync.empty
          (send_groups_to_rematch_backend plain_jids format encode
            (status 200)
            (status 500)
            true
            300000
            (some joined)
            session).0)
calls_force_sync_example =
    calls_force_sync Sync.parse Sync.marshal plain_jids (codes "b") (codes "1") Sync.database format
      encode (status 200) (status 500) true 300000 300001 300002 (some joined) session Sync.first
      full Sync.empty refl (omega arith) (omega arith) refl refl
