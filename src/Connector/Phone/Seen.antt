-- ===== src/Connector/Phone/Seen.antt =====
-- How often the bridge pings and warns, and how the time at which the phone was seen moves.
use whatsapp_matrix_bridge.Common.{
  ℕ, ◌+◌, ◌*◌, ◌≤◌, ◌<◌, ◌≡◌, Bool, true, false, Bool-cases, inl, inr, ◌⊎◌, Option, none, some,
  Option-cases, ltb, List, [], ◌∷◌, All, arith,
}
use whatsapp_matrix_bridge.Common.Clock.{hour, day}
use whatsapp_matrix_bridge.Connector.Phone.{
  State, phone_recently_seen, send_hacky_phone_ping, send_phone_offline_warning, tick, phone_seen,
}

-- What happens between two pings: ticks of the loop, and events from the phone.
pub data Action : Type 0 where
  ticked : (connected room : Bool) (at : ℕ) (response : Option ℕ) → Action
  seen : (was_offline connected : Bool) (at ts : ℕ) → Action

abbrev pub time_of : Action → ℕ
time_of (ticked connected room at response) = at
time_of (seen was_offline connected at ts) = at

unfoldable pub after : Action → State → State
after (ticked connected room at response) s = (tick connected room at response s).0
after (seen was_offline connected at ts) s = (phone_seen was_offline connected at ts s).0

abbrev pub pings : Action → State → Bool
pings (ticked connected room at response) s = (tick connected room at response s).1
pings (seen was_offline connected at ts) s = false

-- None of the actions, each in the state that those before it left, pings.
pub NoPing : List Action → State → Type 0
NoPing [] s = Unit
NoPing (a ∷ actions) s = (pings a s ≡ false) × NoPing actions (after a s)

-- Within a day of the last ping no action pings, and the time of the last ping stays.
after-lem :
    (a : Action) (now : ℕ) (s : State)
    → time_of a ≤ now + day
    → s.phone_last_pinged ≡ some now
    → (pings a s ≡ false) × ((after a s).phone_last_pinged ≡ some now)
unfolding after tick phone_seen phone_recently_seen send_hacky_phone_ping send_phone_offline_warning
after-lem (ticked connected room at response) now s l e = ground (arith, l, e)
after-lem (seen was_offline connected at ts) now s l e = ground (arith, l, e)

actions-NoPing :
    (actions : List Action) (now : ℕ) (s : State)
    → All (λ a. time_of a ≤ now + day) actions
    → s.phone_last_pinged ≡ some now
    → NoPing actions s
unfolding NoPing
actions-NoPing [] now s l e = tt
actions-NoPing (a ∷ actions) now s (l, ls) e =
    let (quiet, same) = after-lem a now s l e in
    (quiet, actions-NoPing actions now (after a s) ls same)

tick-pinged :
    (room : Bool) (now : ℕ) (r : Option ℕ) (s : State)
    → (r ≡ none) ⊎ (r ≡ some now)
    → (tick true room now r s).1 ≡ true
    → (tick true room now r s).0.phone_last_pinged ≡ some now
unfolding tick phone_recently_seen send_hacky_phone_ping send_phone_offline_warning
tick-pinged room now r s er h = ground (arith, er, h)

-- Where a tick pings and the server gives no response, or one stamped with the tick's time, no
-- tick in the next day pings again, however many ticks come, whatever they warn of and are
-- answered, and whatever events show that the phone was seen between them.
pub tick_pings_once :
    (room : Bool) (now : ℕ) (r : Option ℕ) (s : State) (actions : List Action)
    → (r ≡ none) ⊎ (r ≡ some now)
    → (tick true room now r s).1 ≡ true
    → All (λ a. time_of a ≤ now + day) actions
    → NoPing actions (tick true room now r s).0
tick_pings_once room now r s actions er h l =
    actions-NoPing actions now (tick true room now r s).0 l (tick-pinged room now r s er h)

-- Where a tick warns, no tick in the next 12 hours warns again.
pub tick_warns_once :
    (c₂ room₁ room₂ : Bool) (now later : ℕ) (r₁ r₂ : Option ℕ) (s : State)
    → (tick true room₁ now r₁ s).2 ≡ true
    → later < now + 12 * hour
    → (tick c₂ room₂ later r₂ (tick true room₁ now r₁ s).0).2 ≡ false
unfolding tick phone_recently_seen send_hacky_phone_ping send_phone_offline_warning
tick_warns_once c₂ room₁ room₂ now later r₁ r₂ s h l = ground (arith, h, l)

-- Where a tick warns, and the server answers a ping with the time of the tick, the phone has been
-- pinged within the day before, by this tick or an earlier one.
pub tick_warns_pinged :
    (room : Bool) (now : ℕ) (s : State)
    → (tick true room now (some now) s).2 ≡ true
    → (t : ℕ) × ((tick true room now (some now) s).0.phone_last_pinged ≡ some t) × (now ≤ t + day)
unfolding tick phone_recently_seen send_hacky_phone_ping send_phone_offline_warning
tick_warns_pinged room now s h = elim (Option-cases s.phone_last_pinged) [
  | inl e ↦ (now, ground (arith, e, h), omega arith)
  | inr (t, e) ↦ elim (Bool-cases (ltb (t + day) now)) [
    | inl old ↦ (now, ground (arith, e, h, old), omega arith)
    | inr young ↦ (t, ground (arith, e, h, young), ground (arith, young))
  ]
]

-- Where the phone was seen before, phoneSeen changes nothing, or it moves the time on by an hour
-- or more to that of the event, and then the bridge state changes only where the phone was last
-- seen 12 days ago or more.
pub phone_seen_lem :
    (was_offline connected : Bool) (now ts old : ℕ) (s : State)
    → s.phone_last_seen ≡ some old
    → (((phone_seen was_offline connected now ts s).0 ≡ s)
        × ((phone_seen was_offline connected now ts s).1 ≡ false))
      ⊎ ((old + hour ≤ ts)
          × ((phone_seen was_offline connected now ts s).0.phone_last_seen ≡ some ts)
          × (((phone_seen was_offline connected now ts s).1 ≡ false) ⊎ (old + 12 * day ≤ now)))
unfolding phone_seen phone_recently_seen
phone_seen_lem was_offline connected now ts old s e = ground (arith, e)
