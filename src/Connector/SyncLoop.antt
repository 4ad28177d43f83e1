-- ===== src/Connector/SyncLoop.antt =====
-- pkg/connector/backfill.go, `historySyncLoop`: when the events are handled and the portals created.
-- A stopped or reset timer sends nothing of what it had left, as in Go since 1.23.
pub mod Spaced
pub mod Tests
use whatsapp_matrix_bridge.Common.{
  ℕ, ◌+◌, ◌≤◌, ◌≡◌, Bool, true, false, ◌&&◌, not, Option, none, some, List, [], ◌∷◌, if◌then◌else◌,
}

-- `historySyncDispatchWait`, and the time after which the loop dispatches at the start.
abbrev pub dispatch_wait : ℕ
dispatch_wait = 30

abbrev pub start_wait : ℕ
start_wait = 5

-- What the loop has done: an event was handled, the handler having returned at the time, or the
-- portals were created.
pub data Done : Type 0 where
  handled created : ℕ → Done

-- The clock, the time at which the timer sends, if it runs, what was done, the latest first, and
-- whether the loop was stopped.
pub record State : Type 0 where
  pub now : ℕ
  pub timer : Option ℕ
  pub log : List Done
  pub stopped : Bool

-- The state in which the loop starts.
unfoldable pub start : Bool → Bool → ℕ → State
start is_new_login portals_need_creating now = record {
  now = now;
  timer = if not is_new_login && portals_need_creating then some (now + start_wait) else none;
  log = [];
  stopped = false;
}

-- `handleWAHistorySync` returns at the time `finished`.
unfoldable pub receive_event : ℕ → State → State
receive_event finished s = record s {
  now = finished;
  timer = some (finished + dispatch_wait);
  log = handled finished ∷ s.log;
}

-- `createPortalsFromHistorySync` begins at the time `at`.
unfoldable pub dispatch : ℕ → State → State
dispatch at s = record s { now = at; timer = none; log = created at ∷ s.log }

-- A round of the loop.
pub data Step (s : State) : State → Type 0 where
  event : (finished : ℕ) → s.stopped ≡ false → s.now ≤ finished → Step s (receive_event finished s)
  fires :
      (deadline at : ℕ)
      → s.stopped ≡ false
      → s.timer ≡ some deadline
      → deadline ≤ at
      → s.now ≤ at
      → Step s (dispatch at s)
  cancelled : s.stopped ≡ false → Step s (record s { stopped = true })

pub data IsReachable (first : State) : State → Type 0 where
  here : IsReachable first first
  next : {s t : State} → IsReachable first s → Step s t → IsReachable first t
