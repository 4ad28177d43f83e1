-- ===== src/Connector/Phone.antt =====
-- pkg/connector/phoneping.go: when the phone was last seen, and what the bridge does when that is
-- long ago. Times are in seconds.
pub mod Seen
pub mod Tests
use whatsapp_matrix_bridge.Common.{
  ℕ, ◌*◌, Bool, true, false, ◌&&◌, ◌||◌, not, Option, none, some, List, [], ◌∷◌, if◌then◌else◌,
}
use whatsapp_matrix_bridge.Common.Clock.{Instant, hour, day, is_zero, since_lt, since_gt, add_after}

-- The fields of `waid.UserLoginMetadata` that are about the phone, and `lastPhoneOfflineWarning`.
pub record State : Type 0 where
  pub phone_last_seen : Instant
  pub phone_last_pinged : Instant
  pub last_phone_offline_warning : Instant

abbrev pub phone_disconnect_warning_time : ℕ
phone_disconnect_warning_time = 12 * day

abbrev pub phone_disconnect_ping_time : ℕ
phone_disconnect_ping_time = 10 * day

abbrev pub phone_min_ping_interval : ℕ
phone_min_ping_interval = day

-- The answer of `PhoneRecentlySeen`, and whether it sends a ping.
unfoldable pub phone_recently_seen : Bool → ℕ → State → Bool × Bool
phone_recently_seen do_ping now s = (
  is_zero s.phone_last_seen || since_lt now s.phone_last_seen phone_disconnect_warning_time,
  do_ping
      && not (is_zero s.phone_last_seen)
      && since_gt now s.phone_last_seen phone_disconnect_ping_time
      && since_gt now s.phone_last_pinged phone_min_ping_interval,
)

-- `sendHackyPhonePing`, with the timestamp of the server's response, if it gives one.
unfoldable pub send_hacky_phone_ping : ℕ → Option ℕ → State → State
send_hacky_phone_ping now none s = record s { phone_last_pinged = some now }
send_hacky_phone_ping now (some ts) s = record s { phone_last_pinged = some ts }

-- What `sendPhoneOfflineWarning` sends, and its effect; `room` tells whether there is a management
-- room.
unfoldable pub send_phone_offline_warning : Bool → ℕ → State → State × Bool
send_phone_offline_warning room now s =
    if not room || since_lt now s.last_phone_offline_warning (12 * hour)
    then (s, false)
    else (record s { last_phone_offline_warning = some now }, true)

-- A tick of `disconnectWarningLoop`: the state after it, whether it pinged and whether it warned.
-- The ping runs to its end before the next tick; `response` is what the server answers to it.
unfoldable pub tick : Bool → Bool → ℕ → Option ℕ → State → State × Bool × Bool
tick false room now response s = (s, false, false)
tick true room now response s =
    let (seen, ping) = phone_recently_seen true now s in
    let pinged : State = elim ping [ true ↦ send_hacky_phone_ping now response s | false ↦ s ] in
    let (warned, sent) = send_phone_offline_warning room now pinged in
    if seen then (pinged, ping, false) else (warned, ping, sent)

-- `phoneSeen` at the time `now`, for an event of the time `ts`: the state after it, and whether it
-- sends the bridge state `connected`. The flags are `prevStateError == WAPhoneOffline` and
-- `isConnected`.
unfoldable pub phone_seen : Bool → Bool → ℕ → ℕ → State → State × Bool
phone_seen was_offline connected now ts s =
    if add_after s.phone_last_seen hour ts then (s, false) else (
      record s { phone_last_seen = some ts },
      not (phone_recently_seen false now s).0 && (was_offline && connected),
    )
