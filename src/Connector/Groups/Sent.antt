-- ===== src/Connector/Groups/Sent.antt =====
-- What the calls of pkg/connector/client.go for the joined groups come to.
use whatsapp_matrix_bridge.Common.{
  ℕ, ◌≡◌, refl, ◌≤◌, inl, inr, Bool, true, false, Option, none, some, List, [], ◌∷◌, map, Bytes,
  arith, Bool-cases, Option-cases,
}
use whatsapp_matrix_bridge.Common.Clock.{day}
use whatsapp_matrix_bridge.Waid.Jid.{Jid, JidLib}
use whatsapp_matrix_bridge.Connector.HistorySync.{
  SyncType, is_unstored, WebEvent, Event, State, Database, handle_wa_history_sync, store_all,
}
use whatsapp_matrix_bridge.Connector.Groups.{
  Group, Schema, Reply, Session, force_sync, filter_groups, send_json_request, to_basic_group,
  to_raw_group, get_joined_groups, get_formatted_groups,
}
use whatsapp_matrix_bridge.Connector.Groups.Send.{
  post_both, posts, post_encoded, basic_schema, raw_schema, send_groups_to_rematch_backend,
}
use whatsapp_matrix_bridge.Connector.Groups.Filter.{Selects, IsWanted, filter_groups-Selects}

-- The groups that whatsmeow answered, the part of them that is wanted, and the two bodies.
pub record Accepted (lib : JidLib) (format : ℕ → Bytes) (marshal : Schema → Option Bytes)
    (user : Bytes) (groups : Option (List Group)) (posted : List Bytes) : Type 0 where
  pub joined : List Group
  pub kept : List Group
  pub basic_body : Bytes
  pub raw_body : Bytes
  pub answered : groups ≡ some joined
  pub selected : Selects (IsWanted user) joined kept
  pub basic_encoded : marshal (Schema.basic user (map (to_basic_group lib) kept)) ≡ some basic_body
  pub raw_encoded : marshal (Schema.raw user (map (to_raw_group lib format) kept)) ≡ some raw_body
  pub bodies : posted ≡ basic_body ∷ raw_body ∷ []

post_both-none :
    (first second : Reply) (b r : Bytes)
    → (post_both first second b r).error ≡ none
    → (post_both first second b r).posted ≡ b ∷ r ∷ []
unfolding post_both posts send_json_request
post_both-none first second b r h = ground arith

module _ (lib : JidLib) (format : ℕ → Bytes) (marshal : Schema → Option Bytes) where
  -- Where SendGroupsToReMatchBackend returns no error, WhatsApp answered the request for the
  -- joined groups, and two bodies were posted: the encodings of the basic and of the raw schema,
  -- both of the same groups in the same order, which are those of the joined groups that are
  -- communities the user takes part in or groups of three members or more, and no others.
  pub send_groups_to_rematch_backend-Accepted :
      (first second : Reply) (saves : Bool) (now : ℕ) (groups : Option (List Group)) (s : Session)
      → (send_groups_to_rematch_backend lib format marshal first second saves now groups s).1.error
        ≡ none
      → Accepted lib format marshal s.jid.user groups
          (send_groups_to_rematch_backend lib format marshal first second saves now groups
            s).1.posted
  unfolding send_groups_to_rematch_backend post_encoded
  send_groups_to_rematch_backend-Accepted first second saves now none s h = ground (arith, h)
  send_groups_to_rematch_backend-Accepted first second saves now (some gs) s h =
      elim (Bool-cases s.logged_in) [
        | inr out ↦ ground (arith, h, out)
        | inl in_ ↦ elim (Option-cases (marshal (basic_schema lib format marshal s.jid.user gs))) [
          | inl e ↦ ground (arith, h, in_, e)
          | inr (b, e) ↦
              elim (Option-cases (marshal (raw_schema lib format marshal s.jid.user gs))) [
                | inl n ↦ ground (arith, h, in_, e, n)
                | inr (r, n) ↦ record {
                  joined = gs;
                  kept = filter_groups s.jid.user gs;
                  basic_body = b;
                  raw_body = r;
                  answered = refl;
                  selected = filter_groups-Selects s.jid.user gs;
                  basic_encoded = e;
                  raw_encoded = n;
                  bodies = ground (arith, h, in_, e, n, post_both-none first second b r);
                }
              ]
        ]
      ]

-- The tables with the `LastHistorySync` that a call left.
abbrev pub synced : {S : Type 0} → State S → Session → State S
synced h s = record h { last_history_sync = s.last_history_sync }

module _ {W S : Type 0} (parse : Jid → W → Option WebEvent) (marshal : W → Option S) (lib : JidLib)
    (bridge login : Bytes) (db : Database S) where
  -- An event that comes at `checked` is stored, and the time is set.
  abbrev pub IsStored : ℕ → ℕ → Event W → State S → Type 0
  IsStored checked finished evt h =
      handle_wa_history_sync parse marshal lib bridge login db checked finished evt h
      ≡ record (store_all parse marshal lib bridge login db evt.conversations h) {
        last_history_sync = some finished;
      }

  -- Asking for the groups lets the next history sync in: after GetJoinedGroups, GetFormattedGroups
  -- or SendGroupsToReMatchBackend of a client that is logged in, a history sync event of a type
  -- that is stored passes the 24-hour gate at any later time and is stored, whatever the time of
  -- the last one was and whether or not the login could be saved.
  pub calls_force_sync :
      (format : ℕ → Bytes) (encode : Schema → Option Bytes) (first second : Reply) (saves : Bool)
      (now checked finished : ℕ) (groups : Option (List Group)) (s : Session) (evt : Event W)
      (type : SyncType) (h : State S)
      → s.logged_in ≡ true
      → day ≤ now
      → now ≤ checked
      → evt.sync_type ≡ some type
      → is_unstored type ≡ false
      → IsStored checked finished evt (synced h (get_joined_groups lib saves now groups s).0)
        × IsStored checked finished evt
            (synced h (get_formatted_groups lib encode saves now groups s).0)
        × IsStored checked finished evt (
            synced h
              (send_groups_to_rematch_backend lib format encode first second saves now groups s).0)
  unfolding handle_wa_history_sync get_joined_groups get_formatted_groups
      send_groups_to_rematch_backend force_sync
  calls_force_sync format encode first second saves now checked finished groups s evt type h logged
        in_day later stored kind =
      ground (arith, logged, in_day, later, stored, kind)
