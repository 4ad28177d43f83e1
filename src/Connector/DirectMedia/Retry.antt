-- ===== src/Connector/DirectMedia/Retry.antt =====
-- Requests and notifications in any order.
use whatsapp_matrix_bridge.Common.{
  ℕ, suc, ◌≡◌, ◌⊎◌, refl, Bool, true, false, Bool-cases, inl, inr, Option, none, some, Option-cases,
  List, [], ◌∷◌, if◌then◌else◌, Bytes, beq, beq_refl, beq_iff, Bytes-discrete, arith,
}
use whatsapp_matrix_bridge.Common.Result.{Call, returns, ok}
use whatsapp_matrix_bridge.Connector.DirectMedia.{
  Waiting, State, Notification, put_retry, get_direct_media_retry_state, request_from, request_with,
  request_direct_media, notify, receive_direct_media_retry, answer,
}
use mathlib.Core.Path.{subst}

-- How often a request went out for a message.
abbrev pub count : Bytes → List Bytes → ℕ
count id [] = 0
count id (x ∷ xs) = if beq Bytes-discrete id x then suc (count id xs) else count id xs

-- 1 where the entry says that the media was requested.
abbrev pub requests : Option Waiting → ℕ
requests none = 0
requests (some w) = if w.requested then 1 else 0

pub data Step : State → State → Type 0 where
  requested : (id : Bytes) (fails : Bool) {s : State} → Step s (request_direct_media id fails s).0
  received :
      (id : Bytes) (keys : Bool) (decrypted : Option Notification) (path : Option Bytes)
      {s t : State}
      → receive_direct_media_retry id keys decrypted s ≡ returns (t, path)
      → Step s t

pub data IsReachable : State → Type 0 where
  started : IsReachable (record { retries = λ id. none; sent = [] })
  stepped : {s t : State} → IsReachable s → Step s t → IsReachable t

request-count :
    (id : Bytes) (fails : Bool) (s : State) (j : Bytes)
    → ((k : Bytes) → count k s.sent ≡ requests (s.retries k))
    → count j (request_direct_media id fails s).0.sent
      ≡ requests ((request_direct_media id fails s).0.retries j)
unfolding request_direct_media request_with get_direct_media_retry_state request_from put_retry
request-count id fails s j h = elim (Bool-cases (beq Bytes-discrete j id)) [
  | inl same ↦
      let e : j ≡ id = (beq_iff Bytes-discrete j id).0 same in
      elim (Option-cases (s.retries id)) [
        | inl none_yet ↦ ground (arith, same, h id, h j, none_yet, e, beq_refl Bytes-discrete id)
        | inr (w, found) ↦ ground (arith, same, h id, h j, found, e, beq_refl Bytes-discrete id)
      ]
  | inr apart ↦ elim (Option-cases (s.retries id)) [
    | inl none_yet ↦ ground (arith, apart, h id, h j, none_yet)
    | inr (w, found) ↦ ground (arith, apart, h id, h j, found)
  ]
]

put_retry-at : (id : Bytes) (v : Waiting) (s : State) → (put_retry id v s).retries id ≡ some v
unfolding put_retry
put_retry-at id v s = rw (beq_refl Bytes-discrete id)

-- A notification that is entered leaves the numbers of requests as they are.
put_retry-count :
    (id : Bytes) (w v : Waiting) (p path : Option Bytes) (s t : State) (j : Bytes)
    → s.retries id ≡ some w
    → v.requested ≡ w.requested
    → Path (Call (State × Option Bytes)) (returns (put_retry id v s, p)) (returns (t, path))
    → count j s.sent ≡ requests (s.retries j)
    → count j t.sent ≡ requests (t.retries j)
unfolding put_retry
put_retry-count id w v p path s t j found same e h =
    let after : put_retry id v s ≡ t = cc in
    subst (λ (u : State). count j u.sent ≡ requests (u.retries j)) after
      (elim (Bool-cases (beq Bytes-discrete j id)) [
        | inr apart ↦ rw (apart) h
        | inl here ↦
            let at : j ≡ id = (beq_iff Bytes-discrete j id).0 here in
            let there : s.retries j ≡ some w = cc in rw (here) (ground (arith, h, there, same))
      ])

notify-requested : (n : Notification) (w : Waiting) → (notify n w).0.requested ≡ w.requested
unfolding notify
notify-requested n w = ground arith

receive-count :
    (id : Bytes) (keys : Bool) (decrypted : Option Notification) (path : Option Bytes) (s t : State)
    (j : Bytes)
    → receive_direct_media_retry id keys decrypted s ≡ returns (t, path)
    → count j s.sent ≡ requests (s.retries j)
    → count j t.sent ≡ requests (t.retries j)
unfolding receive_direct_media_retry
receive-count id keys decrypted path s t j e h = elim (Option-cases (s.retries id)) [
  | inl none_yet ↦
      let same : s ≡ t = ground (arith, e, none_yet) in
      subst (λ (u : State). count j u.sent ≡ requests (u.retries j)) same h
  | inr (w, found) ↦ received-count keys decrypted w found e
]
  where
    received-count :
        (k : Bool) (d : Option Notification) (w : Waiting)
        → s.retries id ≡ some w
        → receive_direct_media_retry id k d s ≡ returns (t, path)
        → count j t.sent ≡ requests (t.retries j)
    received-count false d w found er =
        put_retry-count id w (record w { is_set = true }) none path s t j found refl
          (ground (arith, er, found)) h
    received-count true none w found er =
        put_retry-count id w (record w { is_set = true }) none path s t j found refl
          (ground (arith, er, found)) h
    received-count true (some n) w found er =
        put_retry-count id w (notify n w).0 (notify n w).1 path s t j found (notify-requested n w)
          (ground (arith, er, found)) h

-- However requests and notifications interleave, a message's media is requested from the phone at
-- most once: once where its entry says so, and otherwise not at all.
pub IsReachable-count :
    {s : State} → IsReachable s → (j : Bytes) → count j s.sent ≡ requests (s.retries j)
IsReachable-count started j = refl
IsReachable-count (stepped {s} r (requested id fails)) j =
    request-count id fails s j (IsReachable-count r)
IsReachable-count (stepped {s} r (received id keys decrypted path {t = t} e)) j =
    receive-count id keys decrypted path s t j e (IsReachable-count r j)

request-entry :
    (id : Bytes) (s : State) (w : Waiting)
    → (request_direct_media id false s).1 ≡ ok w
    → (request_direct_media id false s).0.retries id ≡ some w
unfolding request_direct_media request_with get_direct_media_retry_state request_from put_retry
request-entry id s w e = elim (Option-cases (s.retries id)) [
  | inl none_yet ↦ ground (arith, e, none_yet, beq_refl Bytes-discrete id)
  | inr (v, found) ↦ ground (arith, e, found, beq_refl Bytes-discrete id)
]

notify-answer :
    (n : Notification) (w : Waiting)
    → (n.direct_path ≡ []) ⊎ (answer (notify n w).0 ≡ ok n.direct_path)
unfolding notify answer
notify-answer n w = elim (Bool-cases (beq Bytes-discrete n.direct_path [])) [
  | inl e ↦ inl ((beq_iff Bytes-discrete n.direct_path []).0 e)
  | inr e ↦ inr (ground (arith, e))
]

notify-is_set : (n : Notification) (w : Waiting) → (notify n w).0.is_set ≡ true
unfolding notify
notify-is_set n w = ground arith

receive_found :
    (id : Bytes) (n : Notification) (w : Waiting) (s : State)
    → s.retries id ≡ some w
    → receive_direct_media_retry id true (some n) s
      ≡ returns (put_retry id (notify n w).0 s, (notify n w).1)
unfolding receive_direct_media_retry
receive_found id n w s found = ground (arith, found)

-- A sound notification does not panic, and leaves an entry whose event is set; with a direct path,
-- that path is the answer.
abbrev pub IsAnswered : Bytes → Notification → State → Type 0
IsAnswered id n s =
    (after : State) × (path : Option Bytes) × (v : Waiting) × (receive_direct_media_retry id true
        (some n) s
      ≡ returns (after, path))
    × (after.retries id ≡ some v)
    × (v.is_set ≡ true)
    × ((n.direct_path ≡ []) ⊎ (answer v ≡ ok n.direct_path))

-- Where a request for media did not fail, a notification that decrypts, for a message whose keys
-- parse, does not panic and leaves an entry whose event is set; if it has a direct path, that path
-- is what the download answers.
pub request-receive :
    (id : Bytes) (n : Notification) (s : State) (w : Waiting)
    → (request_direct_media id false s).1 ≡ ok w
    → IsAnswered id n (request_direct_media id false s).0
request-receive id n s w e =
    let s' = (request_direct_media id false s).0 in
    let v = (notify n w).0 in
    (
      put_retry id v s',
      (notify n w).1,
      v,
      receive_found id n w s' (request-entry id s w e),
      put_retry-at id v s',
      notify-is_set n w,
      notify-answer n w,
    )
