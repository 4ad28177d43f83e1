-- ===== src/Connector/SyncLoop/Tests.antt =====
-- A login with portals to create, two events, and the portals.
use whatsapp_matrix_bridge.Common.{refl, true, false, none, [], ◌∷◌, arith}
use whatsapp_matrix_bridge.Connector.SyncLoop.{
  handled, created, State, start, receive_event, dispatch, event, fires, IsReachable, here, next,
}
use whatsapp_matrix_bridge.Connector.SyncLoop.Spaced.{
  IsSpaced, WillDispatch, at_start, IsReachable-IsSpaced,
}

abbrev last : State
last = record {
  now = 150;
  timer = none;
  log = created 150 ∷ handled 110 ∷ handled 103 ∷ [];
  stopped = false;
}

last-IsReachable : IsReachable (start false true 100) last
unfolding start receive_event dispatch
last-IsReachable =
    next (next (next here (event 103 refl (omega arith))) (event 110 refl (omega arith)))
      (fires 140 150 refl refl (omega arith) (omega arith))

IsReachable-IsSpaced_example : IsSpaced (at_start false true 100) 100 last.log × WillDispatch last
IsReachable-IsSpaced_example = IsReachable-IsSpaced false true 100 last last-IsReachable
