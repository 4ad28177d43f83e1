-- ===== src/Connector/Resync/Queue.antt =====
-- The queue over any sequence of its operations, and what a round works on.
use whatsapp_matrix_bridge.Common.{
  ℕ, ◌≡◌, refl, true, false, ◌||◌, not, Bool-cases, inl, inr, List, [], ◌∷◌, All, if◌then◌else◌,
  beq_refl, arith,
}
use whatsapp_matrix_bridge.Waid.Jid.{Jid, JidLib, Jid-discrete, is_group}
use whatsapp_matrix_bridge.Waid.Id.{parse_user_id}
use whatsapp_matrix_bridge.Connector.Resync.{
  Target, Item, ghost, portal, State, is_recent, target_of, has_key, add_missing,
  enqueue_ghost_resync, portal_jid, enqueue_portal_resync, rotate_resync_queue, choose,
}

-- No JID is queued twice.
abbrev pub IsUnique : List (Jid × Item) → Type 0
IsUnique [] = Unit
IsUnique ((j, item) ∷ queue) = (has_key j queue ≡ false) × IsUnique queue

module _ (lib : JidLib) where
  -- A ghost is queued under its own JID, and a portal under its own, which is a group's.
  abbrev pub Fits : Jid × Item → Type 0
  Fits (j, ghost t) = j ≡ parse_user_id t.id
  Fits (j, portal t) = (j ≡ portal_jid lib t.id) × (is_group j.server ≡ true)

  -- A step of the client, at some time.
  pub data Step : State → State → Type 0 where
    ghost_queued : (now : ℕ) (t : Target) {s : State} → Step s (enqueue_ghost_resync now t s)
    portal_queued : (now : ℕ) (t : Target) {s : State} → Step s (enqueue_portal_resync lib now t s)
    rotated : (now : ℕ) {s : State} → Step s (rotate_resync_queue now s).1

  -- The states that steps lead to from an empty queue.
  pub data IsReachable : State → Type 0 where
    started : (next : ℕ) → IsReachable (record { queue = []; next_resync = next })
    stepped : {s t : State} → IsReachable s → Step s t → IsReachable t

  add_missing_sound :
      (j : Jid) (item : Item) (s : State)
      → Fits (j, item)
      → IsUnique s.queue
      → All Fits s.queue
      → IsUnique (add_missing j item s).queue × All Fits (add_missing j item s).queue
  unfolding add_missing
  add_missing_sound j item s f u a = elim (Bool-cases (has_key j s.queue)) [
    | inl e ↦ rw (e) (u, a)
    | inr e ↦ rw (e) ((e, u), (f, a))
  ]

  enqueue_ghost_sound :
      (now : ℕ) (t : Target) (s : State)
      → IsUnique s.queue
      → All Fits s.queue
      → IsUnique (enqueue_ghost_resync now t s).queue
        × All Fits (enqueue_ghost_resync now t s).queue
  unfolding enqueue_ghost_resync
  enqueue_ghost_sound now t s u a = elim (Bool-cases (is_recent now t)) [
    | inl e ↦ rw (e) (u, a)
    | inr e ↦ rw (e) (add_missing_sound (parse_user_id t.id) (ghost t) s refl u a)
  ]

  enqueue_portal_sound :
      (now : ℕ) (t : Target) (s : State)
      → IsUnique s.queue
      → All Fits s.queue
      → IsUnique (enqueue_portal_resync lib now t s).queue
        × All Fits (enqueue_portal_resync lib now t s).queue
  unfolding enqueue_portal_resync
  enqueue_portal_sound now t s u a =
      elim (Bool-cases (not (is_group (portal_jid lib t.id).server) || is_recent now t)) [
        | inl e ↦ rw (e) (u, a)
        | inr e ↦
            let grouped : is_group (portal_jid lib t.id).server ≡ true = ground (arith, e) in
            rw (e) (add_missing_sound (portal_jid lib t.id) (portal t) s (refl, grouped) u a)
      ]

  -- In every state that the client reaches, no JID is queued twice, each ghost is queued under its
  -- own JID, and each portal under its own, which is that of a group.
  pub IsReachable_sound : {s : State} → IsReachable s → IsUnique s.queue × All Fits s.queue
  unfolding rotate_resync_queue
  IsReachable_sound (started next) = (tt, tt)
  IsReachable_sound (stepped {s} r (ghost_queued now t)) =
      let (u, a) = IsReachable_sound r in enqueue_ghost_sound now t s u a
  IsReachable_sound (stepped {s} r (portal_queued now t)) =
      let (u, a) = IsReachable_sound r in enqueue_portal_sound now t s u a
  IsReachable_sound (stepped r (rotated now)) = (tt, tt)

-- The entries that are due, and the ghosts and the portals of a queue.
abbrev pub due : ℕ → List (Jid × Item) → List (Jid × Item)
due now [] = []
due now ((j, item) ∷ queue) =
    if is_recent now (target_of item) then due now queue else (j, item) ∷ due now queue

abbrev pub ghosts_of : List (Jid × Item) → List (Jid × Target)
ghosts_of [] = []
ghosts_of ((j, ghost t) ∷ queue) = (j, t) ∷ ghosts_of queue
ghosts_of ((j, portal t) ∷ queue) = ghosts_of queue

abbrev pub portals_of : List (Jid × Item) → List Target
portals_of [] = []
portals_of ((j, ghost t) ∷ queue) = portals_of queue
portals_of ((j, portal t) ∷ queue) = t ∷ portals_of queue

-- A round asks for the ghosts and the portals whose last synchronisation is a week ago or more,
-- for each of them, in the queue's order, and for nothing else.
pub choose_lem :
    (now : ℕ) (queue : List (Jid × Item))
    → choose now queue ≡ (ghosts_of (due now queue), portals_of (due now queue))
unfolding choose
choose_lem now [] = refl
choose_lem now ((j, ghost t) ∷ queue) = ground (arith, choose_lem now queue)
choose_lem now ((j, portal t) ∷ queue) = ground (arith, choose_lem now queue)

-- A ghost that is queued again before the next round, whatever the time, changes nothing.
pub enqueue_ghost_resync_again :
    (now later : ℕ) (t : Target) (s : State)
    → is_recent now t ≡ false
    → enqueue_ghost_resync later t (enqueue_ghost_resync now t s) ≡ enqueue_ghost_resync now t s
unfolding enqueue_ghost_resync add_missing has_key
enqueue_ghost_resync_again now later t s h =
    ground (arith, h, beq_refl Jid-discrete (parse_user_id t.id))
