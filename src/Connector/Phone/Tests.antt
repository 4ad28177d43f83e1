-- ===== src/Connector/Phone/Tests.antt =====
-- The theorems on the phone at concrete inputs. The phone was seen on day 1.
use whatsapp_matrix_bridge.Common.{
  ℕ, ◌+◌, ◌*◌, ◌≤◌, ◌≡◌, refl, true, none, some, inl, List, [], ◌∷◌, arith,
}
use whatsapp_matrix_bridge.Common.Clock.{day, hour}
use whatsapp_matrix_bridge.Connector.Phone.{
  State, phone_recently_seen, send_hacky_phone_ping, send_phone_offline_warning, tick,
}
use whatsapp_matrix_bridge.Connector.Phone.Seen.{
  Action, ticked, seen, NoPing, tick_pings_once, tick_warns_pinged,
}

abbrev long_gone : State
long_gone = record {
  phone_last_seen = some day;
  phone_last_pinged = none;
  last_phone_offline_warning = none;
}

-- On day 14 it is pinged, and its owner is warned.
day_14 : (tick true true (14 * day) none long_gone).1 ≡ true
unfolding tick phone_recently_seen
day_14 = refl

warned : (tick true true (14 * day) (some (14 * day)) long_gone).2 ≡ true
unfolding tick phone_recently_seen send_phone_offline_warning send_hacky_phone_ping
warned = refl

-- An hour later, and after an event from the phone, another 2 hours later.
abbrev later : List Action
later =
    ticked true true (14 * day + hour) none
    ∷ seen true true (14 * day + 2 * hour) (14 * day + 2 * hour)
    ∷ ticked true true (14 * day + 3 * hour) (some 7)
    ∷ []

tick_pings_once_example : NoPing later (tick true true (14 * day) none long_gone).0
tick_pings_once_example =
    tick_pings_once true (14 * day) none long_gone later (inl refl) day_14
      (omega arith, (omega arith, (omega arith, tt)))

tick_warns_pinged_example :
    (t : ℕ) × ((tick true true (14 * day) (some (14 * day)) long_gone).0.phone_last_pinged ≡ some t)
    × (14 * day ≤ t + day)
tick_warns_pinged_example = tick_warns_pinged true (14 * day) long_gone warned
