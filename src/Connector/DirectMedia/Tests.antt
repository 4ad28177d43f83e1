-- ===== src/Connector/DirectMedia/Tests.antt =====
-- The theorems on missing media at concrete inputs.
use whatsapp_matrix_bridge.Common.{◌≡◌, ◌↔◌, refl, true, false, none, some, [], ◌∷◌, Bytes}
use whatsapp_matrix_bridge.Common.Text.{codes}
use whatsapp_matrix_bridge.Common.Result.{panics, ok}
use whatsapp_matrix_bridge.Connector.DirectMedia.{
  State, Waiting, Notification, success, fresh, request_direct_media, request_with, request_from,
  get_direct_media_retry_state, put_retry, receive_direct_media_retry,
}
use whatsapp_matrix_bridge.Connector.DirectMedia.Retry.{
  count, requests, IsReachable-count, IsAnswered, request-receive,
}
use whatsapp_matrix_bridge.Connector.DirectMedia.Retry
use whatsapp_matrix_bridge.Connector.DirectMedia.Panics.{
  IsRun, started, requested, IsAsked, IsRun-panics,
}

abbrev id : Bytes
id = codes "A"

abbrev start : State
start = record { retries = λ id. none; sent = [] }

abbrev uploaded : Notification
uploaded = record { result = success; direct_path = codes "/v/t62" }

abbrev asked : State
asked = (request_direct_media id false start).0

IsReachable-count_example : count id asked.sent ≡ requests (asked.retries id)
IsReachable-count_example =
    IsReachable-count {s = asked} (Retry.stepped Retry.started (Retry.requested id false)) id

-- Another message's media was asked for, and the request failed.
other-IsRun : IsRun (codes "B" ∷ []) (request_direct_media (codes "B") true start).0
other-IsRun = requested (codes "B") true started

IsRun-panics_example :
    (receive_direct_media_retry id true
        (some uploaded)
        (request_direct_media (codes "B") true start).0
      ≡ panics)
    ↔ (¬ IsAsked id (codes "B" ∷ []))
IsRun-panics_example =
    IsRun-panics {ids = codes "B" ∷ []} {s = (request_direct_media (codes "B") true start).0} id
      uploaded other-IsRun

abbrev waiting : Waiting
waiting = record fresh { requested = true }

answered : (request_direct_media id false start).1 ≡ ok waiting
unfolding request_direct_media request_with request_from get_direct_media_retry_state put_retry
answered = refl

request-receive_example : IsAnswered id uploaded (request_direct_media id false start).0
request-receive_example = request-receive id uploaded start waiting answered
