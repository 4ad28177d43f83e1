-- ===== src/Connector/Resync/Tests.antt =====
-- The theorems on the queue at concrete inputs.
use whatsapp_matrix_bridge.Common.{◌*◌, none, some, List, [], ◌∷◌, All}
use whatsapp_matrix_bridge.Common.Text.{codes}
use whatsapp_matrix_bridge.Common.Clock.{day}
use whatsapp_matrix_bridge.Waid.Jid.{Jid}
use whatsapp_matrix_bridge.Waid.Jid.Plain.{plain_jids, alice, friends}
use whatsapp_matrix_bridge.Connector.Resync.{
  Target, Item, ghost, portal, State, enqueue_ghost_resync, enqueue_portal_resync,
}
use whatsapp_matrix_bridge.Connector.Resync.Queue.{
  IsUnique, Fits, ghost_queued, portal_queued, IsReachable, started, stepped, IsReachable_sound,
}

abbrev alice_ghost : Target
alice_ghost = record { id = codes "15550001"; last_sync = none }

abbrev friends_portal : Target
friends_portal = record { id = codes "120363@g.us"; last_sync = some day }

abbrev start : State
start = record { queue = []; next_resync = 0 }

abbrev queued : State
queued =
    enqueue_portal_resync plain_jids (9 * day) friends_portal
      (enqueue_ghost_resync (9 * day) alice_ghost start)

abbrev reached : IsReachable plain_jids queued
reached =
    stepped (stepped (started 0) (ghost_queued (9 * day) alice_ghost))
      (portal_queued (9 * day) friends_portal)

IsReachable_sound_example : IsUnique queued.queue × All (Fits plain_jids) queued.queue
IsReachable_sound_example = IsReachable_sound plain_jids {s = queued} reached

abbrev entries : List (Jid × Item)
entries = (alice, ghost alice_ghost) ∷ (friends, portal friends_portal) ∷ []
