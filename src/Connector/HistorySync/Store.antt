-- ===== src/Connector/HistorySync/Store.antt =====
-- What `handleWAHistorySync` keeps true of the tables, and what its 24-hour gate does to the events
-- that follow one another.
use whatsapp_matrix_bridge.Common.{
  ℕ, ◌+◌, ◌<◌, ◌≡◌, inl, inr, false, Bool-cases, Option, none, some, Option-cases, List, [], ◌∷◌,
  All, Bytes, arith,
}
use whatsapp_matrix_bridge.Common.Clock.{day, since_lt}
use whatsapp_matrix_bridge.Waid.Jid.{Jid, JidLib}
use whatsapp_matrix_bridge.Wadb.Message.{chat_at, Row, Tuple, to_row}
use whatsapp_matrix_bridge.Wadb.Message.Laws.{IsKeyed}
use whatsapp_matrix_bridge.Wadb.Message.Batches.{put-IsKeyed, put-All}
use whatsapp_matrix_bridge.Wadb.Conversation.{HistoryConversation}
use whatsapp_matrix_bridge.Connector.HistorySync.{
  SyncType, WebEvent, SyncedChat, Event, State, Database, is_unstored, is_skipped, collect, save,
  store_at, store_chat, store_all, handle_wa_history_sync,
}

-- No row belongs to a chat that is skipped.
abbrev pub NoneSkipped : {S : Type 0} → List (Row S) → Type 0
NoneSkipped = All (λ r. is_skipped r.chat_jid ≡ false)

module _ {W S : Type 0} (parse : Jid → W → Option WebEvent) (marshal : W → Option S) (lib : JidLib)
    (bridge login : Bytes) (db : Database S) where
  save-IsKeyed :
      (jid : Jid) (settings : HistoryConversation) (ts : List (Tuple S)) (s : State S)
      → IsKeyed s.messages
      → IsKeyed (save lib bridge login db jid settings ts s).messages
  unfolding save
  save-IsKeyed jid settings [] s h = h
  save-IsKeyed jid settings (t ∷ ts) s h = elim (Bool-cases (db.refuses jid)) [
    | inl e ↦ rw (e) h
    | inr e ↦
        rw (e) (put-IsKeyed lib (chat_at bridge login jid) (db.chunks jid (t ∷ ts)) s.messages h)
  ]

  save-NoneSkipped :
      (jid : Jid) (settings : HistoryConversation) (ts : List (Tuple S)) (s : State S)
      → is_skipped jid ≡ false
      → NoneSkipped s.messages
      → NoneSkipped (save lib bridge login db jid settings ts s).messages
  unfolding save to_row
  save-NoneSkipped jid settings [] s kept h = h
  save-NoneSkipped jid settings (t ∷ ts) s kept h = elim (Bool-cases (db.refuses jid)) [
    | inl e ↦ rw (e) h
    | inr e ↦ rw (e) (
        put-All lib (chat_at bridge login jid) (λ r. is_skipped r.chat_jid ≡ false)
          (db.chunks jid (t ∷ ts)) s.messages (λ n x. kept) h)
  ]

  store_at-IsKeyed :
      (conv : SyncedChat W) (jid : Option Jid) (s : State S)
      → IsKeyed s.messages
      → IsKeyed (store_at parse marshal lib bridge login db conv jid s).messages
  unfolding store_at
  store_at-IsKeyed conv none s h = h
  store_at-IsKeyed conv (some jid) s h = elim (Bool-cases (is_skipped jid)) [
    | inl skip ↦ rw (skip) h
    | inr keep ↦
        rw (keep) (save-IsKeyed jid conv.settings (collect parse marshal jid conv.messages) s h)
  ]

  store_at-NoneSkipped :
      (conv : SyncedChat W) (jid : Option Jid) (s : State S)
      → NoneSkipped s.messages
      → NoneSkipped (store_at parse marshal lib bridge login db conv jid s).messages
  unfolding store_at
  store_at-NoneSkipped conv none s h = h
  store_at-NoneSkipped conv (some jid) s h = elim (Bool-cases (is_skipped jid)) [
    | inl skip ↦ rw (skip) h
    | inr keep ↦
        rw (keep)
          (save-NoneSkipped jid conv.settings (collect parse marshal jid conv.messages) s keep h)
  ]

  store_all_sound :
      (convs : List (SyncedChat W)) (s : State S)
      → IsKeyed s.messages
      → NoneSkipped s.messages
      → IsKeyed (store_all parse marshal lib bridge login db convs s).messages
        × NoneSkipped (store_all parse marshal lib bridge login db convs s).messages
  unfolding store_all store_chat
  store_all_sound [] s k n = (k, n)
  store_all_sound (conv ∷ convs) s k n =
      store_all_sound convs (store_chat parse marshal lib bridge login db conv s)
        (store_at-IsKeyed conv (lib.parse_jid conv.id) s k)
        (store_at-NoneSkipped conv (lib.parse_jid conv.id) s n)

  -- Whatever a history sync event holds and whatever the database refuses, the table of messages
  -- keeps its primary key, and no row of it belongs to a broadcast list or a hidden user, where
  -- both held before.
  pub handle_wa_history_sync_sound :
      (checked finished : ℕ) (evt : Event W) (s : State S)
      → IsKeyed s.messages
      → NoneSkipped s.messages
      → IsKeyed
          (handle_wa_history_sync parse marshal lib bridge login db checked finished evt s).messages
        × NoneSkipped
            (handle_wa_history_sync parse marshal lib bridge login db checked finished evt
              s).messages
  unfolding handle_wa_history_sync
  handle_wa_history_sync_sound checked finished evt s k n = elim (Option-cases evt.sync_type) [
    | inl e ↦ rw (e) (k, n)
    | inr (type, e) ↦ rw (e) (elim (Bool-cases (is_unstored type)) [
      | inl u ↦ rw (u) (k, n)
      | inr u ↦ rw (u) (elim (Bool-cases (since_lt checked s.last_history_sync day)) [
        | inl g ↦ rw (g) (k, n)
        | inr g ↦ rw (g) (store_all_sound evt.conversations s k n)
      ])
    ])
  ]

  -- Once a history sync event of a type that is stored has passed the 24-hour gate, every event
  -- that comes less than a day after it is dropped, the further chunks of the same history sync
  -- included: it leaves tables and time as they are.
  pub handle_wa_history_sync_drops :
      (t₁ t₂ later finished : ℕ) (first second : Event W) (s : State S) (type : SyncType)
      → first.sync_type ≡ some type
      → is_unstored type ≡ false
      → since_lt t₁ s.last_history_sync day ≡ false
      → later < t₂ + day
      → handle_wa_history_sync parse marshal lib bridge login db later finished second
          (handle_wa_history_sync parse marshal lib bridge login db t₁ t₂ first s)
        ≡ handle_wa_history_sync parse marshal lib bridge login db t₁ t₂ first s
  unfolding handle_wa_history_sync
  handle_wa_history_sync_drops t₁ t₂ later finished first second s type et eu eg h =
      ground (arith, et, eu, eg, h)
