-- ===== src/Connector/Resync.antt =====
-- pkg/connector/userinfo.go: the queue of ghosts and portals whose information is to be refreshed.
pub mod Queue
pub mod Tests
use whatsapp_matrix_bridge.Common.{
  ℕ, ◌+◌, ◌*◌, Bool, true, false, ◌&&◌, ◌||◌, not, Option, none, some, List, [], ◌∷◌, ◌++◌,
  if◌then◌else◌, Bytes, beq,
}
use whatsapp_matrix_bridge.Common.Clock.{Instant, hour, day, add_after}
use whatsapp_matrix_bridge.Common.Result.{Result, ok, err}
use whatsapp_matrix_bridge.Waid.Jid.{Jid, JidLib, Jid-discrete, is_group, empty_jid}
use whatsapp_matrix_bridge.Waid.Id.{Error, parse_user_id, parse_portal_id}

-- A ghost or a portal: its ID and the time of its last synchronisation.
pub record Target : Type 0 where
  pub id : Bytes
  pub last_sync : Instant

-- `resyncQueueItem`, which has one of its two fields set.
pub data Item : Type 0 where
  ghost portal : Target → Item

-- `resyncQueue` is a map, and here the list of its entries; `next_resync` is in the same state.
pub record State : Type 0 where
  pub queue : List (Jid × Item)
  pub next_resync : ℕ

abbrev pub resync_min_interval : ℕ
resync_min_interval = 7 * day

abbrev pub resync_loop_interval : ℕ
resync_loop_interval = 4 * hour

abbrev pub target_of : Item → Target
target_of (ghost t) = t
target_of (portal t) = t

-- `lastSync.Add(resyncMinInterval).After(time.Now())`
abbrev pub is_recent : ℕ → Target → Bool
is_recent now t = add_after t.last_sync resync_min_interval now

unfoldable pub has_key : Jid → List (Jid × Item) → Bool
has_key j [] = false
has_key j ((k, item) ∷ queue) = beq Jid-discrete k j || has_key j queue

-- `if _, exists := …; !exists`
unfoldable pub add_missing : Jid → Item → State → State
add_missing j item s = if has_key j s.queue then s else record s { queue = (j, item) ∷ s.queue }

unfoldable pub enqueue_ghost_resync : ℕ → Target → State → State
enqueue_ghost_resync now t s =
    if is_recent now t then s else add_missing (parse_user_id t.id) (ghost t) s

module _ (lib : JidLib) where
  -- `jid, _ := waid.ParsePortalID(portal.ID)`: with an error the JID is the empty one.
  unfoldable pub portal_jid : Bytes → Jid
  portal_jid id = elim (parse_portal_id lib id) [ ok j ↦ j | err e ↦ empty_jid ]

  unfoldable pub enqueue_portal_resync : ℕ → Target → State → State
  enqueue_portal_resync now t s =
      if not (is_group (portal_jid t.id).server) || is_recent now t
      then s
      else add_missing (portal_jid t.id) (portal t) s

-- The queue that is to be worked on, and the state with an empty one.
unfoldable pub rotate_resync_queue : ℕ → State → List (Jid × Item) × State
rotate_resync_queue now s =
    (s.queue, record { queue = []; next_resync = now + resync_loop_interval })

-- The loop of `doGhostResync` over the queue: the ghosts with their JIDs, and the portals, each in
-- the order in which the map is ranged over.
unfoldable pub choose : ℕ → List (Jid × Item) → List (Jid × Target) × List Target
choose now [] = ([], [])
choose now ((j, item) ∷ queue) =
    let (ghosts, portals) = choose now queue in
    if is_recent now (target_of item)
    then (ghosts, portals)
    else elim item [ ghost t ↦ ((j, t) ∷ ghosts, portals) | portal t ↦ (ghosts, t ∷ portals) ]
