-- ===== src/Connector/Groups/Send.antt =====
-- pkg/connector/client.go, `SendGroupsToReMatchBackend`: the groups are posted in two schemas.
use whatsapp_matrix_bridge.Common.{
  ℕ, Bool, Option, none, some, List, [], ◌∷◌, ◌++◌, map, if◌then◌else◌, Bytes,
}
use whatsapp_matrix_bridge.Waid.Jid.{JidLib}
use whatsapp_matrix_bridge.Connector.Groups.{
  Group, Schema, basic, raw, Error, not_connected, groups_failed, marshal_failed, Reply,
  not_created, Session, force_sync, filter_groups, send_json_request, to_basic_group, to_raw_group,
}

-- The bodies that were posted, and the error that is returned, if any.
pub record Sent : Type 0 where
  pub posted : List Bytes
  pub error : Option Error

abbrev nothing : Error → Sent
nothing e = record { posted = []; error = some e }

-- What a request posts.
unfoldable pub posts : Reply → Bytes → List Bytes
posts not_created body = []
posts reply body = body ∷ []

-- The two requests; the second is made where the first is accepted.
unfoldable pub post_both : Reply → Reply → Bytes → Bytes → Sent
post_both first second b r = elim (send_json_request first) [
  | some e ↦ record { posted = posts first b; error = some e }
  | none ↦ record { posted = posts first b ++ posts second r; error = send_json_request second }
]

-- Both schemas are encoded before anything is posted.
unfoldable pub post_encoded : Reply → Reply → Option Bytes → Option Bytes → Sent
post_encoded first second none r = nothing marshal_failed
post_encoded first second (some b) none = nothing marshal_failed
post_encoded first second (some b) (some r) = post_both first second b r

module _ (lib : JidLib) (format : ℕ → Bytes) (marshal : Schema → Option Bytes) where
  abbrev pub basic_schema : Bytes → List Group → Schema
  basic_schema user gs = basic user (map (to_basic_group lib) (filter_groups user gs))

  abbrev pub raw_schema : Bytes → List Group → Schema
  raw_schema user gs = raw user (map (to_raw_group lib format) (filter_groups user gs))

  -- `first` and `second` are what the requests come to.
  unfoldable pub send_groups_to_rematch_backend :
      Reply → Reply → Bool → ℕ → Option (List Group) → Session → Session × Sent
  send_groups_to_rematch_backend first second saves now groups s =
      if s.logged_in
      then (
        force_sync saves now s,
        elim groups [
          | none ↦ nothing groups_failed
          | some gs ↦
              post_encoded first second (marshal (basic_schema s.jid.user gs))
                (marshal (raw_schema s.jid.user gs))
        ],
      )
      else (s, nothing not_connected)
