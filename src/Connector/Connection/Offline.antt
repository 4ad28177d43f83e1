-- ===== src/Connector/Connection/Offline.antt =====
-- The phone-offline state, the waiter, and logging out.
use whatsapp_matrix_bridge.Common.{
  ℕ, ◌+◌, ◌*◌, ◌≤◌, ◌<◌, ◌≡◌, ◌↔◌, ◌⊎◌, refl, ◌∙◌, ap, true, false, Bool-cases, inl, inr, some, ltb,
  All, List, [], ◌∷◌, map, arith,
}
use whatsapp_matrix_bridge.Common.Clock.{day}
use whatsapp_matrix_bridge.Waid.Jid.{empty_jid}
use whatsapp_matrix_bridge.Connector.Phone.{phone_recently_seen}
use whatsapp_matrix_bridge.Connector.Connection.{
  connected, no_error, transient_disconnect, phone_offline, disconnected_error, Event,
  connected_again, offline_sync_completed, disconnected, stream_error, stream_replaced,
  keepalive_timeout, keepalive_restored, client_outdated, temporary_ban, logged_out,
  connect_failure, State, completed, send, is_phone_offline, handle_wa_logout,
  handle_offline_sync_completed, handle_disconnected, handle_wa_event, handle_all,
}

-- Disconnections at some times.
abbrev pub disconnections : List ℕ → List (ℕ × Event)
disconnections = map (λ t. (t, disconnected))

handle_disconnected-offline :
    (now : ℕ) (s : State)
    → is_phone_offline s.prev.error ≡ true
    → (handle_wa_event now disconnected s).0 ≡ s
unfolding handle_wa_event handle_disconnected
handle_disconnected-offline now s h = ground (arith, h)

disconnections_keep :
    (ts : List ℕ) (s : State)
    → is_phone_offline s.prev.error ≡ true
    → handle_all (disconnections ts) s ≡ s
unfolding handle_all
disconnections_keep [] s h = refl
disconnections_keep (t ∷ ts) s h =
    let same = handle_disconnected-offline t s h in
    ap (handle_all (disconnections ts)) same ∙ disconnections_keep ts s h

sync_ended :
    (now : ℕ) (s : State)
    → (phone_recently_seen true now s.phone).0 ≡ false
    → (handle_wa_event now offline_sync_completed s).0 ≡ send transient_disconnect phone_offline s
unfolding handle_wa_event handle_offline_sync_completed
sync_ended now s h = ground (arith, h)

-- Where the offline sync ends and the phone was not seen for 12 days, the bridge state says that
-- the phone is offline, and any number of disconnections that follow leave it so.
pub phone_offline_stays :
    (now : ℕ) (ts : List ℕ) (s : State)
    → (phone_recently_seen true now s.phone).0 ≡ false
    → (handle_all ((now, offline_sync_completed) ∷ disconnections ts) s).prev
      ≡ record { event = transient_disconnect; error = phone_offline }
unfolding handle_all
phone_offline_stays now ts s h =
    let first : (handle_wa_event now offline_sync_completed s).0
        ≡ send transient_disconnect phone_offline s =
      sync_ended now s h in
    ap (λ (u : State). (handle_all (disconnections ts) u).prev) first
    ∙ ap (λ (u : State). u.prev)
        (disconnections_keep ts (send transient_disconnect phone_offline s) refl)

-- One of the times is within 12 days of when the phone was last seen; and none is.
pub AnySoon : ℕ → List ℕ → Type 0
AnySoon old [] = ⊥
AnySoon old (t ∷ ts) = (t < old + 12 * day) ⊎ AnySoon old ts

abbrev pub AllLate : ℕ → List ℕ → Type 0
AllLate old = All (λ t. old + 12 * day ≤ t)

disconnected_soon :
    (now old : ℕ) (s : State)
    → s.phone.phone_last_seen ≡ some old
    → is_phone_offline s.prev.error ≡ false
    → now < old + 12 * day
    → (handle_wa_event now disconnected s).0 ≡ send transient_disconnect disconnected_error s
unfolding handle_wa_event handle_disconnected phone_recently_seen
disconnected_soon now old s e off h = ground (arith, e, off, h)

disconnected_late :
    (now old : ℕ) (s : State)
    → s.phone.phone_last_seen ≡ some old
    → old + 12 * day ≤ now
    → (handle_wa_event now disconnected s).0 ≡ s
unfolding handle_wa_event handle_disconnected phone_recently_seen
disconnected_late now old s e h = ground (arith, e, h)

-- What disconnections in a row come to.
abbrev Outcome : ℕ → List ℕ → State → Type 0
Outcome old ts s =
    (AllLate old ts × (handle_all (disconnections ts) s ≡ s))
    ⊎ (AnySoon old ts
        × ((handle_all (disconnections ts) s).prev
            ≡ record { event = transient_disconnect; error = disconnected_error }))

disconnections-Outcome :
    (ts : List ℕ) (old : ℕ) (s : State)
    → s.phone.phone_last_seen ≡ some old
    → is_phone_offline s.prev.error ≡ false
    → Outcome old ts s
unfolding handle_all AnySoon
disconnections-Outcome [] old s e off = inl (tt, refl)
disconnections-Outcome (t ∷ ts) old s e off = elim (Bool-cases (ltb t (old + 12 * day))) [
  | inl y ↦
      let soon : t < old + 12 * day = ground (arith, y) in
      let sent = send transient_disconnect disconnected_error s in
      let step = disconnected_soon t old s e off soon in
      inr (
        inl soon,
        ap (λ (u : State). (handle_all (disconnections ts) u).prev) step
            ∙ elim (disconnections-Outcome ts old sent e refl) [
              | inl (late, same) ↦ ap (λ (u : State). u.prev) same
              | inr (later, told) ↦ told
            ],
      )
  | inr n ↦
      let late : old + 12 * day ≤ t = ground (arith, n) in
      let step = ap (handle_all (disconnections ts)) (disconnected_late t old s e late) in
      elim (disconnections-Outcome ts old s e off) [
        | inl (later, same) ↦ inl ((late, later), step ∙ same)
        | inr (soon, told) ↦ inr (inr soon, ap (λ (u : State). u.prev) step ∙ told)
      ]
]

-- What becomes of a connection that is lost, once or more often: where one of the disconnections
-- comes within 12 days of when the phone was last seen, the bridge state says that the login is
-- disconnected; and where all come later, it goes on to say that it is connected.
pub disconnections_reported :
    (now : ℕ) (ts : List ℕ) (old : ℕ) (s : State)
    → s.phone.phone_last_seen ≡ some old
    → (AnySoon old ts
        × ((handle_all ((now, connected_again) ∷ disconnections ts) s).prev
            ≡ record { event = transient_disconnect; error = disconnected_error }))
      ⊎ (AllLate old ts
          × ((handle_all ((now, connected_again) ∷ disconnections ts) s).prev
              ≡ record { event = connected; error = no_error }))
unfolding handle_all handle_wa_event
disconnections_reported now ts old s e =
    elim (disconnections-Outcome ts old (send connected no_error s) e refl) [
      | inl (late, same) ↦ inr (late, ap (λ (u : State). u.prev) same)
      | inr (soon, told) ↦ inl (soon, told)
    ]

-- The waiter for the offline sync is told of success by the end of the offline sync alone, and of
-- failure by an event that leaves the client logged out or disconnected: it hears nothing of the
-- keepalive and of a new connection.
pub handle_wa_event_notice :
    (now : ℕ) (e : Event) (s : State)
    → ((handle_wa_event now e s).1.notice ≡ some completed) ↔ (e ≡ offline_sync_completed)
unfolding handle_wa_event handle_offline_sync_completed handle_disconnected
handle_wa_event_notice now connected_again s = ground arith
handle_wa_event_notice now disconnected s = ground arith
handle_wa_event_notice now stream_error s = ground arith
handle_wa_event_notice now stream_replaced s = ground arith
handle_wa_event_notice now keepalive_timeout s = ground arith
handle_wa_event_notice now keepalive_restored s = ground arith
handle_wa_event_notice now client_outdated s = ground arith
handle_wa_event_notice now temporary_ban s = ground arith
handle_wa_event_notice now (logged_out r) s = ground arith
handle_wa_event_notice now (connect_failure n) s = ground arith
handle_wa_event_notice now offline_sync_completed s = ground arith

-- The client of a login, its JID and its device go together.
abbrev pub IsConsistent : State → Type 0
IsConsistent s = (s.has_client ≡ true) ⊎ ((s.jid ≡ empty_jid) × (s.wa_device_id ≡ 0))

handle_wa_event-IsConsistent :
    (now : ℕ) (e : Event) (s : State) → IsConsistent s → IsConsistent (handle_wa_event now e s).0
unfolding handle_wa_event handle_offline_sync_completed handle_disconnected handle_wa_logout
handle_wa_event-IsConsistent now connected_again s h = ground (arith, h)
handle_wa_event-IsConsistent now disconnected s h = ground (arith, h)
handle_wa_event-IsConsistent now stream_error s h = ground (arith, h)
handle_wa_event-IsConsistent now stream_replaced s h = ground (arith, h)
handle_wa_event-IsConsistent now keepalive_timeout s h = ground (arith, h)
handle_wa_event-IsConsistent now keepalive_restored s h = ground (arith, h)
handle_wa_event-IsConsistent now client_outdated s h = ground (arith, h)
handle_wa_event-IsConsistent now temporary_ban s h = ground (arith, h)
handle_wa_event-IsConsistent now (logged_out r) s h = inr (refl, refl)
handle_wa_event-IsConsistent now (connect_failure n) s h = ground (arith, h)
handle_wa_event-IsConsistent now offline_sync_completed s h = ground (arith, h)

-- Whatever events come, and where it held before, a login without a client has neither a JID nor a
-- device.
pub handle_all-IsConsistent :
    (events : List (ℕ × Event)) (s : State) → IsConsistent s → IsConsistent (handle_all events s)
unfolding handle_all
handle_all-IsConsistent [] s h = h
handle_all-IsConsistent ((now, e) ∷ events) s h =
    handle_all-IsConsistent events (handle_wa_event now e s).0
      (handle_wa_event-IsConsistent now e s h)
