-- ===== src/Connector/Connection.antt =====
-- pkg/connector/handlewhatsapp.go, `handleWAEvent` and `handleWALogout`: what the events of the
-- connection do to the bridge state and to the login. The texts of bridge states are left out.
pub mod Offline
pub mod Tests
use whatsapp_matrix_bridge.Common.{
  ℕ, Bool, true, false, ◌&&◌, ◌||◌, not, Option, none, some, List, [], ◌∷◌, if◌then◌else◌,
}
use whatsapp_matrix_bridge.Waid.Jid.{Jid, empty_jid}
use whatsapp_matrix_bridge.Connector.Phone.{phone_recently_seen}
use whatsapp_matrix_bridge.Connector.Phone

pub data StateEvent : Type 0 where
  connected transient_disconnect unknown_error bad_credentials : StateEvent

-- The constants `WA…`, and `wa-connect-failure-` with its number.
pub data ErrorCode : Type 0 where
  no_error phone_offline disconnected_error stream_error_code stream_replaced_error : ErrorCode
  keepalive_timeout_error client_outdated_error temporary_ban_error : ErrorCode
  logged_out_error main_device_gone unknown_logout : ErrorCode
  connect_failure_error : ℕ → ErrorCode

pub record BridgeState : Type 0 where
  pub event : StateEvent
  pub error : ErrorCode

-- `events.ConnectFailureReason` of a logout.
pub data LogoutReason : Type 0 where
  by_user by_main_device by_other : LogoutReason

pub data Event : Type 0 where
  connected_again offline_sync_completed disconnected stream_error stream_replaced : Event
  keepalive_timeout keepalive_restored client_outdated temporary_ban : Event
  logged_out : LogoutReason → Event
  connect_failure : ℕ → Event

-- The bridge state that was sent last, and the fields of the client and of its login's metadata
-- that the handlers read or set.
pub record State : Type 0 where
  pub prev : BridgeState
  pub phone : Phone.State
  pub has_client : Bool
  pub jid : Jid
  pub wa_device_id : ℕ

-- What `notifyOfflineSyncWaiter` hands to the waiter.
pub data Notice : Type 0 where
  completed failed : Notice

-- What a handler does besides: whether it pings the phone, and what it hands to the waiter.
pub record Effects : Type 0 where
  pub pings : Bool
  pub notice : Option Notice

abbrev pub send : StateEvent → ErrorCode → State → State
send e code s = record s { prev = record { event = e; error = code } }

abbrev pub quiet : Option Notice → Effects
quiet n = record { pings = false; notice = n }

abbrev pub is_phone_offline : ErrorCode → Bool
is_phone_offline phone_offline = true
is_phone_offline code = false

logout_code : LogoutReason → ErrorCode
logout_code by_user = logged_out_error
logout_code by_main_device = main_device_gone
logout_code by_other = unknown_logout

unfoldable pub handle_wa_logout : LogoutReason → State → State
unfolding logout_code
handle_wa_logout reason s =
    send bad_credentials (logout_code reason)
      (record s { has_client = false; jid = empty_jid; wa_device_id = 0 })

-- The cases `events.OfflineSyncCompleted` and `events.Disconnected`.
unfoldable pub handle_offline_sync_completed : ℕ → State → State × Effects
handle_offline_sync_completed now s =
    let (seen, ping) = phone_recently_seen true now s.phone in
    if seen then (s, record { pings = ping; notice = some completed }) else (
      send transient_disconnect phone_offline s,
      record { pings = ping; notice = some completed },
    )

unfoldable pub handle_disconnected : ℕ → State → State × Effects
handle_disconnected now s =
    if not (is_phone_offline s.prev.error) && (phone_recently_seen false now s.phone).0
    then (send transient_disconnect disconnected_error s, quiet (some failed))
    else (s, quiet (some failed))

unfoldable pub handle_wa_event : ℕ → Event → State → State × Effects
handle_wa_event now connected_again s = (send connected no_error s, quiet none)
handle_wa_event now offline_sync_completed s = handle_offline_sync_completed now s
handle_wa_event now (logged_out reason) s = (handle_wa_logout reason s, quiet (some failed))
handle_wa_event now disconnected s = handle_disconnected now s
handle_wa_event now stream_error s = (send unknown_error stream_error_code s, quiet (some failed))
handle_wa_event now stream_replaced s =
    (send unknown_error stream_replaced_error s, quiet (some failed))
handle_wa_event now keepalive_timeout s =
    (send transient_disconnect keepalive_timeout_error s, quiet none)
handle_wa_event now keepalive_restored s = (send connected no_error s, quiet none)
handle_wa_event now (connect_failure n) s =
    (send unknown_error (connect_failure_error n) s, quiet (some failed))
handle_wa_event now client_outdated s =
    (send unknown_error client_outdated_error s, quiet (some failed))
handle_wa_event now temporary_ban s =
    (send bad_credentials temporary_ban_error s, quiet (some failed))

-- Events in a row, each at its time.
unfoldable pub handle_all : List (ℕ × Event) → State → State
handle_all [] s = s
handle_all ((now, e) ∷ events) s = handle_all events (handle_wa_event now e s).0
