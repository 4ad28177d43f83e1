-- ===== src/Connector/SyncLoop/Spaced.antt =====
-- When the loop of the history sync creates portals.
use whatsapp_matrix_bridge.Common.{
  ℕ, ◌+◌, ◌≤◌, ◌≡◌, refl, Bool, true, false, not, ◌&&◌, Option, none, some, List, [], ◌∷◌, arith,
  if◌then◌else◌,
}
use mathlib.Core.Path.{subst}
use whatsapp_matrix_bridge.Connector.SyncLoop.{
  Done, handled, created, State, start, receive_event, dispatch, Step, event, fires, cancelled,
  IsReachable, here, next, dispatch_wait, start_wait,
}

-- The portals are created only where the event before was handled long enough ago, or at the start,
-- so never twice for the same events.
pub IsSpaced : Bool → ℕ → List Done → Type 0
IsSpaced at_start since [] = Unit
IsSpaced at_start since (handled t ∷ log) = IsSpaced at_start since log
IsSpaced at_start since (created t ∷ []) = (at_start ≡ true) × (since + start_wait ≤ t)
IsSpaced at_start since (created t ∷ handled f ∷ log) =
    (f + dispatch_wait ≤ t) × IsSpaced at_start since log
IsSpaced at_start since (created t ∷ created f ∷ log) = ⊥

-- The time at which the timer may send, for what was done last.
IsArmed : Bool → ℕ → Option ℕ → List Done → Type 0
IsArmed at_start since none log = Unit
IsArmed at_start since (some d) [] = (at_start ≡ true) × (d ≡ since + start_wait)
IsArmed at_start since (some d) (handled f ∷ log) = d ≡ f + dispatch_wait
IsArmed at_start since (some d) (created t ∷ log) = ⊥

-- Where events are waiting to become portals, the timer runs, unless the loop was stopped.
pub WillDispatch : State → Type 0
WillDispatch s =
    (f : ℕ) (log : List Done) → s.log ≡ handled f ∷ log → s.timer ≡ some (f + dispatch_wait)

module _ (is_new_login portals_need_creating : Bool) (since : ℕ) where
  abbrev pub at_start : Bool
  at_start = not is_new_login && portals_need_creating

  record Inv (s : State) : Type 0 where
    spaced : IsSpaced at_start since s.log
    armed : IsArmed at_start since s.timer s.log
    waits : WillDispatch s

  dispatch-IsSpaced :
      (d at : ℕ) (log : List Done)
      → IsArmed at_start since (some d) log
      → d ≤ at
      → IsSpaced at_start since log
      → IsSpaced at_start since (created at ∷ log)
  unfolding IsArmed IsSpaced
  dispatch-IsSpaced d at [] armed le spaced = ground (arith, armed, le)
  dispatch-IsSpaced d at (handled f ∷ log) armed le spaced = (omega (arith, armed, le), spaced)
  dispatch-IsSpaced d at (created t ∷ log) armed le spaced = absurd armed

  IsArmed-at_start : (b : Bool) → IsArmed b since (if b then some (since + start_wait) else none) []
  unfolding IsArmed
  IsArmed-at_start true = (refl, refl)
  IsArmed-at_start false = tt

  start-Inv : Inv (start is_new_login portals_need_creating since)
  unfolding start IsSpaced WillDispatch
  start-Inv = record {
    spaced = tt;
    armed = IsArmed-at_start at_start;
    waits = λ f log e. ground (arith, e);
  }

  receive_event-Inv : (finished : ℕ) (s : State) → Inv s → Inv (receive_event finished s)
  unfolding receive_event IsSpaced IsArmed WillDispatch
  receive_event-Inv finished s inv = record {
    spaced = inv.spaced;
    armed = refl;
    waits = λ f log e. ground (arith, e);
  }

  dispatch-Inv : (d at : ℕ) (s : State) → s.timer ≡ some d → d ≤ at → Inv s → Inv (dispatch at s)
  unfolding dispatch IsArmed WillDispatch
  dispatch-Inv d at s timer due inv = record {
    spaced =
        dispatch-IsSpaced d at s.log (subst (λ t. IsArmed at_start since t s.log) timer inv.armed)
          due inv.spaced;
    armed = tt;
    waits = λ f log e. ground (arith, e);
  }

  Step-Inv : {s t : State} → Step s t → Inv s → Inv t
  unfolding WillDispatch
  Step-Inv {s} (event finished running later) inv = receive_event-Inv finished s inv
  Step-Inv {s} (fires d at running timer due later) inv = dispatch-Inv d at s timer due inv
  Step-Inv (cancelled running) inv = record {
    spaced = inv.spaced;
    armed = inv.armed;
    waits = inv.waits;
  }

  IsReachable-Inv :
      {s : State} → IsReachable (start is_new_login portals_need_creating since) s → Inv s
  IsReachable-Inv here = start-Inv
  IsReachable-Inv (next r step) = Step-Inv step (IsReachable-Inv r)

  -- However history sync events come and timers fire, the loop creates portals only 30 seconds or
  -- more after it handled the event before, or, at its start, after 5 seconds where the login is
  -- not new and portals are left to create, and never twice without an event between; and where an
  -- event was the last that it did, its timer runs.
  pub IsReachable-IsSpaced :
      (s : State)
      → IsReachable (start is_new_login portals_need_creating since) s
      → IsSpaced at_start since s.log × WillDispatch s
  IsReachable-IsSpaced s r = let inv = IsReachable-Inv r in (inv.spaced, inv.waits)
