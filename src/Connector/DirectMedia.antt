-- ===== src/Connector/DirectMedia.antt =====
-- pkg/connector/directmedia.go, from `directMediaRetry` on: media that a download finds missing is
-- requested from the phone, and the download waits for the phone's notification.
pub mod Retry
pub mod Panics
pub mod Tests
use whatsapp_matrix_bridge.Common.{
  ℕ, ◌+◌, Bool, true, false, ◌&&◌, ◌||◌, not, Option, none, some, List, [], ◌∷◌, if◌then◌else◌,
  Bytes, beq, Bytes-discrete,
}
use whatsapp_matrix_bridge.Common.Result.{Call, returns, panics, Result, ok, err}

-- `waMmsRetry.MediaRetryNotification_ResultType`; its zero value is `general_error`.
pub data ResultType : Type 0 where
  general_error success not_found decryption_error : ResultType

-- `directMediaRetry`; `is_set` tells whether the event `wait` is set.
pub record Waiting : Type 0 where
  pub result_url : Bytes
  pub is_set : Bool
  pub requested : Bool
  pub result_type : ResultType

-- `directMediaRetries`, a Go map, and the messages for which a request went out, the last one first.
pub record State : Type 0 where
  pub retries : Bytes → Option Waiting
  pub sent : List Bytes

-- What a notification decrypts to.
pub record Notification : Type 0 where
  pub result : ResultType
  pub direct_path : Bytes

pub data DirectError : Type 0 where
  not_found_on_phone phone_error send_failed : DirectError

abbrev pub fresh : Waiting
fresh = record { result_url = []; is_set = false; requested = false; result_type = general_error }

unfoldable pub put_retry : Bytes → Waiting → State → State
put_retry id w s = record s {
  retries = λ j. if beq Bytes-discrete j id then some w else s.retries j;
}

unfoldable pub get_direct_media_retry_state : Bytes → Bool → State → Option Waiting × State
get_direct_media_retry_state id create s = elim (s.retries id) [
  | some w ↦ (some w, s)
  | none ↦ if create then (some fresh, put_retry id fresh s) else (none, s)
]

-- The request for an entry of the map that is there; `fails` is the answer of
-- `sendMediaRequestDirect`.
unfoldable pub request_from : Bytes → Bool → Waiting → State → State × Result DirectError Waiting
request_from id fails w s =
    let asked : Waiting = record w { requested = true } in
    if w.requested
    then (s, ok w)
    else if fails
    then (s, err send_failed)
    else (record (put_retry id asked s) { sent = id ∷ s.sent }, ok asked)

unfoldable pub request_with :
    Bytes → Bool → Option Waiting × State → State × Result DirectError Waiting
request_with id fails (none, s) = (s, err send_failed)
request_with id fails (some w, s) = request_from id fails w s

unfoldable pub request_direct_media : Bytes → Bool → State → State × Result DirectError Waiting
unfolding request_with
request_direct_media id fails s = request_with id fails (get_direct_media_retry_state id true s)

is_success : ResultType → Bool
is_success success = true
is_success t = false

-- A notification for an entry: what becomes of the entry, and the direct path that is written to
-- the message's metadata.
unfoldable pub notify : Notification → Waiting → Waiting × Option Bytes
unfolding is_success
notify n w =
    if not (is_success n.result) && beq Bytes-discrete n.direct_path []
    then (record w { result_type = n.result; is_set = true }, none)
    else (
      record w { result_type = n.result; result_url = n.direct_path; is_set = true },
      some n.direct_path,
    )

-- `keys` tells whether the metadata of the message parses, and `decrypted` is what the notification
-- decrypts to, if it does. Where there is no entry, line 212 writes through a nil pointer.
unfoldable pub receive_direct_media_retry :
    Bytes → Bool → Option Notification → State → Call (State × Option Bytes)
receive_direct_media_retry id keys decrypted s = elim (s.retries id) [
  | none ↦ elim keys [
    | false ↦ returns (s, none)
    | true ↦ elim decrypted [ none ↦ returns (s, none) | some n ↦ panics ]
  ]
  | some w ↦ elim keys [
    | false ↦ returns (put_retry id (record w { is_set = true }) s, none)
    | true ↦ elim decrypted [
      | none ↦ returns (put_retry id (record w { is_set = true }) s, none)
      | some n ↦ returns (put_retry id (notify n w).0 s, (notify n w).1)
    ]
  ]
]

-- What `requestAndWaitDirectMedia` answers once the event is set: the new direct path, or an error.
unfoldable pub answer : Waiting → Result DirectError Bytes
answer w =
    if beq Bytes-discrete w.result_url []
    then elim w.result_type [ not_found ↦ err not_found_on_phone | _ ↦ err phone_error ]
    else ok w.result_url
