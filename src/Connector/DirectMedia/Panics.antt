-- ===== src/Connector/DirectMedia/Panics.antt =====
-- When a notification of pkg/connector/directmedia.go finds no entry.
use whatsapp_matrix_bridge.Common.{
  ◌≡◌, ◌↔◌, ◌⊎◌, refl, sym, ◌∙◌, not, ◌&&◌, Bool, true, false, Bool-cases, inl, inr, Option, none,
  some, Option-cases, List, [], ◌∷◌, Bytes, beq, beq_refl, beq_iff, Bytes-discrete, arith,
}
use whatsapp_matrix_bridge.Common.Result.{Call, returns, panics}
use whatsapp_matrix_bridge.Connector.DirectMedia.{
  Waiting, State, Notification, fresh, put_retry, get_direct_media_retry_state, request_from,
  request_with, request_direct_media, notify, receive_direct_media_retry,
}
use mathlib.Core.Path.{subst}

-- A run from the start, with the messages whose media a download asked for, the last one first,
-- whether or not a request went out.
pub data IsRun : List Bytes → State → Type 0 where
  started : IsRun [] (record { retries = λ id. none; sent = [] })
  requested :
      (id : Bytes) (fails : Bool) {ids : List Bytes} {s : State}
      → IsRun ids s
      → IsRun (id ∷ ids) (request_direct_media id fails s).0
  received :
      (id : Bytes) (keys : Bool) (decrypted : Option Notification) (path : Option Bytes)
      {ids : List Bytes} {s t : State}
      → IsRun ids s
      → receive_direct_media_retry id keys decrypted s ≡ returns (t, path)
      → IsRun ids t

pub IsAsked : Bytes → List Bytes → Type 0
IsAsked id [] = ⊥
IsAsked id (j ∷ ids) = (id ≡ j) ⊎ IsAsked id ids

abbrev HasEntry : Bytes → State → Type 0
HasEntry id s = (w : Waiting) × (s.retries id ≡ some w)

request_direct_media-HasEntry :
    (id : Bytes) (fails : Bool) (s : State) → HasEntry id (request_direct_media id fails s).0
unfolding request_direct_media request_with get_direct_media_retry_state request_from put_retry
request_direct_media-HasEntry id fails s = elim (Option-cases (s.retries id)) [
  | inl none_yet ↦ elim (Bool-cases fails) [
    | inl y ↦ (fresh, ground (arith, none_yet, y, beq_refl Bytes-discrete id))
    | inr n ↦
        (record fresh { requested = true }, ground (arith, none_yet, n, beq_refl Bytes-discrete id))
  ]
  | inr (w, found) ↦ elim (Bool-cases (not w.requested && not fails)) [
    | inl y ↦ (record w { requested = true }, ground (arith, found, y, beq_refl Bytes-discrete id))
    | inr n ↦ (w, ground (arith, found, n))
  ]
]

request_direct_media-other :
    (id j : Bytes) (fails : Bool) (s : State)
    → beq Bytes-discrete j id ≡ false
    → (request_direct_media id fails s).0.retries j ≡ s.retries j
unfolding request_direct_media request_with get_direct_media_retry_state request_from put_retry
request_direct_media-other id j fails s apart = elim (Option-cases (s.retries id)) [
  | inl none_yet ↦ ground (arith, none_yet, apart)
  | inr (w, found) ↦ ground (arith, found, apart)
]

-- A notification leaves the map as it is, or enters its entry again.
IsEntered : Bytes → State → State → Type 0
IsEntered id s t =
    (s ≡ t) ⊎ ((w : Waiting) × (v : Waiting) × (s.retries id ≡ some w) × (put_retry id v s ≡ t))

received-IsEntered :
    (id : Bytes) (w v : Waiting) (p path : Option Bytes) (s t : State)
    → s.retries id ≡ some w
    → Path (Call (State × Option Bytes)) (returns (put_retry id v s, p)) (returns (t, path))
    → IsEntered id s t
unfolding IsEntered
received-IsEntered id w v p path s t found e = inr (w, v, found, cc)

receive_direct_media_retry-IsEntered :
    (id : Bytes) (keys : Bool) (decrypted : Option Notification) (path : Option Bytes) (s t : State)
    → receive_direct_media_retry id keys decrypted s ≡ returns (t, path)
    → IsEntered id s t
unfolding receive_direct_media_retry IsEntered
receive_direct_media_retry-IsEntered id keys decrypted path s t e =
    elim (Option-cases (s.retries id)) [
      | inl none_yet ↦ inl (ground (arith, e, none_yet))
      | inr (w, found) ↦ entered keys decrypted w found e
    ]
  where
    entered :
        (k : Bool) (d : Option Notification) (w : Waiting)
        → s.retries id ≡ some w
        → receive_direct_media_retry id k d s ≡ returns (t, path)
        → IsEntered id s t
    entered false d w found er =
        received-IsEntered id w (record w { is_set = true }) none path s t found
          (ground (arith, er, found))
    entered true none w found er =
        received-IsEntered id w (record w { is_set = true }) none path s t found
          (ground (arith, er, found))
    entered true (some n) w found er =
        received-IsEntered id w (notify n w).0 (notify n w).1 path s t found
          (ground (arith, er, found))

-- Whether a message has an entry.
abbrev Keeps : Bytes → State → State → Type 0
Keeps j s t = (HasEntry j s → HasEntry j t) × (s.retries j ≡ none → t.retries j ≡ none)

put_retry-Keeps :
    (j id : Bytes) (w v : Waiting) (s : State)
    → s.retries id ≡ some w
    → Keeps j s (put_retry id v s)
unfolding put_retry
put_retry-Keeps j id w v s found = elim (Bool-cases (beq Bytes-discrete j id)) [
  | inl here ↦
      let at : j ≡ id = (beq_iff Bytes-discrete j id).0 here in
      let there : s.retries j ≡ some w = cc in
      ((λ h. (v, ground (arith, here))), (λ absent. ground (arith, there, absent)))
  | inr apart ↦
      ((λ (u, e). (u, ground (arith, apart, e))), (λ absent. ground (arith, apart, absent)))
]

IsEntered-Keeps : (j id : Bytes) (s t : State) → IsEntered id s t → Keeps j s t
unfolding IsEntered
IsEntered-Keeps j id s t (inl e) = subst (Keeps j s) e ((λ h. h), (λ h. h))
IsEntered-Keeps j id s t (inr (w, v, found, e)) =
    subst (Keeps j s) e (put_retry-Keeps j id w v s found)

-- The messages that were asked for have an entry, and the others have none.
abbrev Tracks : List Bytes → State → Type 0
Tracks ids s =
    (j : Bytes) → (IsAsked j ids × HasEntry j s) ⊎ ((¬ IsAsked j ids) × (s.retries j ≡ none))

request_direct_media-Tracks :
    (id : Bytes) (fails : Bool) (ids : List Bytes) (s : State)
    → Tracks ids s
    → Tracks (id ∷ ids) (request_direct_media id fails s).0
unfolding IsAsked
request_direct_media-Tracks id fails ids s h j = elim (Bool-cases (beq Bytes-discrete j id)) [
  | inl here ↦
      let at : j ≡ id = (beq_iff Bytes-discrete j id).0 here in
      inl (
        inl at,
        subst (λ k. HasEntry k (request_direct_media id fails s).0) (sym at)
            (request_direct_media-HasEntry id fails s),
      )
  | inr apart ↦
      let same = request_direct_media-other id j fails s apart in
      elim (h j) [
        | inl (asked, (w, found)) ↦ inl (inr asked, (w, same ∙ found))
        | inr (unasked, absent) ↦ inr (
          (λ a. elim a [
            | inl e ↦ ground (arith, apart, (beq_iff Bytes-discrete j id).1 e)
            | inr later ↦ unasked later
          ]),
          same ∙ absent,
        )
      ]
]

IsRun-Tracks : {ids : List Bytes} {s : State} → IsRun ids s → Tracks ids s
unfolding IsAsked
IsRun-Tracks started j = inr ((λ h. h), refl)
IsRun-Tracks (requested id fails {ids} {s} r) j =
    request_direct_media-Tracks id fails ids s (IsRun-Tracks r) j
IsRun-Tracks (received id keys decrypted path {s = s} {t = t} r e) j =
    let (stays, absent) =
      IsEntered-Keeps j id s t
        (receive_direct_media_retry-IsEntered id keys decrypted path s t e) in
    elim (IsRun-Tracks r j) [
      | inl (asked, found) ↦ inl (asked, stays found)
      | inr (unasked, gone) ↦ inr (unasked, absent gone)
    ]

receive_none :
    (id : Bytes) (n : Notification) (s : State)
    → s.retries id ≡ none
    → receive_direct_media_retry id true (some n) s ≡ panics
unfolding receive_direct_media_retry
receive_none id n s absent = ground (arith, absent)

receive_some :
    (id : Bytes) (n : Notification) (w : Waiting) (s : State)
    → s.retries id ≡ some w
    → ¬ (receive_direct_media_retry id true (some n) s ≡ panics)
unfolding receive_direct_media_retry
receive_some id n w s found e = ground (arith, found, e)

-- However downloads and notifications went since the start, a notification that decrypts, for a
-- message whose keys parse, panics exactly where no download has asked for the media of that
-- message since the start; a download whose request failed counts as one.
pub IsRun-panics :
    {ids : List Bytes} {s : State} (id : Bytes) (n : Notification)
    → IsRun ids s
    → (receive_direct_media_retry id true (some n) s ≡ panics) ↔ (¬ IsAsked id ids)
IsRun-panics {s = s} id n r = elim (IsRun-Tracks r id) [
  | inl (asked, (w, found)) ↦
      ((λ e. absurd (receive_some id n w s found e)), (λ unasked. absurd (unasked asked)))
  | inr (unasked, absent) ↦ ((λ e. unasked), (λ u. receive_none id n s absent))
]
