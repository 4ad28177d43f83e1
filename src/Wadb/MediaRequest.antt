-- ===== src/Wadb/MediaRequest.antt =====
-- pkg/connector/wadb/mediarequest.go: requests to the phone for media that are gone from the
-- servers.
use whatsapp_matrix_bridge.Common.{
  Bool, true, false, ◌&&◌, List, [], ◌∷◌, if◌then◌else◌, Bytes, beq, Bytes-discrete,
}
use whatsapp_matrix_bridge.Connector.Ids.{PortalKey}

-- `MediaBackfillRequestStatus`
pub data Status : Type 0 where
  not_requested requested request_failed request_skipped : Status

pub record MediaRequest : Type 0 where
  pub bridge_id : Bytes
  pub user_login_id : Bytes
  pub message_id : Bytes
  pub portal_key : PortalKey
  pub media_key : Bytes
  pub status : Status
  pub error : Bytes

-- Rows with one primary key.
unfoldable pub same_key : MediaRequest → MediaRequest → Bool
same_key r s =
    beq Bytes-discrete r.bridge_id s.bridge_id
    && beq Bytes-discrete r.user_login_id s.user_login_id
    && beq Bytes-discrete r.message_id s.message_id

-- `DO UPDATE SET media_key=…, status=…, error=…`: the portal of the old row stays.
unfoldable pub upsert : MediaRequest → List MediaRequest → List MediaRequest
upsert r [] = r ∷ []
upsert r (old ∷ rows) =
    if same_key old r
    then record old { media_key = r.media_key; status = r.status; error = r.error } ∷ rows
    else old ∷ upsert r rows

-- `Put`, which sets the bridge ID first.
unfoldable pub put : Bytes → MediaRequest → List MediaRequest → List MediaRequest
put bridge r = upsert (record r { bridge_id = bridge })

unfoldable pub delete : Bytes → Bytes → Bytes → List MediaRequest → List MediaRequest
delete bridge login message [] = []
delete bridge login message (r ∷ rows) =
    let rest = delete bridge login message rows in
    if beq Bytes-discrete r.bridge_id bridge
      && beq Bytes-discrete r.user_login_id login
      && beq Bytes-discrete r.message_id message
    then rest
    else r ∷ rest

abbrev pub is_unrequested : Status → Bool
is_unrequested not_requested = true
is_unrequested s = false

-- `GetUnrequestedForUserLogin`: the rows with status 0.
unfoldable pub get_unrequested : Bytes → Bytes → List MediaRequest → List MediaRequest
get_unrequested bridge login [] = []
get_unrequested bridge login (r ∷ rows) =
    let rest = get_unrequested bridge login rows in
    if beq Bytes-discrete r.bridge_id bridge
      && beq Bytes-discrete r.user_login_id login
      && is_unrequested r.status
    then r ∷ rest
    else rest
