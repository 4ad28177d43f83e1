-- ===== src/Wadb/Conversation/History.antt =====
-- What pkg/connector/wadb/conversation.go knows of a chat after any puts and marks.
use whatsapp_matrix_bridge.Common.{
  ◌≡◌, ◌≢◌, refl, sym, ◌⊎◌, inl, inr, Bool, true, false, Option, Option-cases, none, some, List, [],
  ◌∷◌, All, arith, Bytes,
}
use mathlib.Core.Path.{subst}
use whatsapp_matrix_bridge.Common.Clock.{Instant}
use whatsapp_matrix_bridge.Wadb.Message.{Chat}
use whatsapp_matrix_bridge.Wadb.Conversation.{
  Conversation, coalesce, merge, chat_of, put, mark_bridged,
}
use whatsapp_matrix_bridge.Wadb.Conversation.Upsert.{NotAfter, later_lem}

-- `Put` of a conversation, and `MarkBridged` of a chat.
pub data Operation : Type 0 where
  stored : Conversation → Operation
  marked : Chat → Operation

-- A table after the operations, the last one first.
unfoldable pub run : Bytes → List Operation → List Conversation
run bridge [] = []
run bridge (stored conv ∷ ops) = put bridge conv (run bridge ops)
run bridge (marked d ∷ ops) = mark_bridged d (run bridge ops)

abbrev pub in_bridge : Bytes → Conversation → Conversation
in_bridge bridge conv = record conv { bridge_id = bridge }

-- What the operations are for one chat: the conversations that were put for it, the last one
-- first, and whether it was marked since the last of them.
pub data IsHistory (bridge : Bytes) (c : Chat)
    : List Operation → List Conversation → Bool → Type 0 where
  start : IsHistory bridge c [] [] false
  put_it :
      (conv : Conversation) {ops : List Operation} {ps : List Conversation} {b : Bool}
      → chat_of (in_bridge bridge conv) ≡ c
      → conv.bridged ≡ false
      → IsHistory bridge c ops ps b
      → IsHistory bridge c (stored conv ∷ ops) (conv ∷ ps) false
  put_other :
      (conv : Conversation) {ops : List Operation} {ps : List Conversation} {b : Bool}
      → chat_of (in_bridge bridge conv) ≢ c
      → IsHistory bridge c ops ps b
      → IsHistory bridge c (stored conv ∷ ops) ps b
  mark_it :
      (d : Chat) {ops : List Operation} {ps : List Conversation} {b : Bool}
      → d ≡ c
      → IsHistory bridge c ops ps b
      → IsHistory bridge c (marked d ∷ ops) ps true
  mark_other :
      (d : Chat) {ops : List Operation} {ps : List Conversation} {b : Bool}
      → d ≢ c
      → IsHistory bridge c ops ps b
      → IsHistory bridge c (marked d ∷ ops) ps b

-- The last value of a column that is known.
unfoldable pub last_known {ℓ} :
    {A : Type ℓ} → (Conversation → Option A) → List Conversation → Option A
last_known column [] = none
last_known column (p ∷ ps) = elim (column p) [ none ↦ last_known column ps | some a ↦ some a ]

-- An instant is that of the last message of one of them.
unfoldable pub IsOneOf : Instant → List Conversation → Type 0
IsOneOf t [] = ⊥
IsOneOf t (p ∷ ps) = (p.last_message_timestamp ≡ t) ⊎ IsOneOf t ps

-- A row against the conversations that were put.
pub record IsSummary (ps : List Conversation) (is_marked : Bool) (r : Conversation) : Type 0 where
  pub newest : All (λ p. NotAfter p.last_message_timestamp r.last_message_timestamp) ps
  pub put_once : IsOneOf r.last_message_timestamp ps
  pub archived : r.archived ≡ last_known (λ p. p.archived) ps
  pub pinned : r.pinned ≡ last_known (λ p. p.pinned) ps
  pub mute_end_time : r.mute_end_time ≡ last_known (λ p. p.mute_end_time) ps
  pub transfer_type :
      r.end_of_history_transfer_type ≡ last_known (λ p. p.end_of_history_transfer_type) ps
  pub expiration : r.ephemeral_expiration ≡ last_known (λ p. p.ephemeral_expiration) ps
  pub setting : r.ephemeral_setting_timestamp ≡ last_known (λ p. p.ephemeral_setting_timestamp) ps
  pub unread_mark : r.marked_as_unread ≡ last_known (λ p. p.marked_as_unread) ps
  pub unread : r.unread_count ≡ last_known (λ p. p.unread_count) ps
  pub bridged : r.bridged ≡ is_marked

coalesce-last_known {ℓ} :
    {A : Type ℓ} (column : Conversation → Option A) (p : Conversation) (ps : List Conversation)
    (new old : Option A)
    → new ≡ column p
    → old ≡ last_known column ps
    → coalesce new old ≡ last_known column (p ∷ ps)
unfolding coalesce last_known
coalesce-last_known column p ps none old e f = ground (arith, e, f)
coalesce-last_known column p ps (some a) old e f = ground (arith, e, f)

last_known-one {ℓ} :
    {A : Type ℓ} (column : Conversation → Option A) (p : Conversation)
    → column p ≡ last_known column (p ∷ [])
unfolding last_known
last_known-one column p = elim (Option-cases (column p)) [
  | inl e ↦ ground (arith, e)
  | inr (a, e) ↦ ground (arith, e)
]

NotAfter-trans : (a b c : Instant) → NotAfter a b → NotAfter b c → NotAfter a c
NotAfter-trans none b c h k = tt
NotAfter-trans (some a) none c h k = absurd h
NotAfter-trans (some a) (some b) none h k = k
NotAfter-trans (some a) (some b) (some c) h k = omega (arith, h, k)

NotAfter-refl : (a : Instant) → NotAfter a a
NotAfter-refl none = tt
NotAfter-refl (some a) = omega arith

newest-later :
    (ps : List Conversation) (a b : Instant)
    → NotAfter a b
    → All (λ p. NotAfter p.last_message_timestamp a) ps
    → All (λ p. NotAfter p.last_message_timestamp b) ps
newest-later [] a b h hs = tt
newest-later (p ∷ ps) a b h (k, ks) =
    (NotAfter-trans p.last_message_timestamp a b k h, newest-later ps a b h ks)

pub merge-IsSummary :
    (bridge : Bytes) (conv old : Conversation) (ps : List Conversation) (b : Bool)
    → IsSummary ps b old
    → IsSummary (conv ∷ ps) false (merge (in_bridge bridge conv) old)
unfolding merge IsOneOf
merge-IsSummary bridge conv old ps b h =
    let (fresh, known, chosen) = later_lem conv.last_message_timestamp old.last_message_timestamp in
    record {
      newest = (fresh, newest-later ps old.last_message_timestamp _ known h.newest);
      put_once = elim chosen [
        | inl e ↦ inl (sym e)
        | inr e ↦ inr (subst (λ t. IsOneOf t ps) (sym e) h.put_once)
      ];
      archived =
          coalesce-last_known (λ p. p.archived) conv ps conv.archived old.archived refl h.archived;
      pinned = coalesce-last_known (λ p. p.pinned) conv ps conv.pinned old.pinned refl h.pinned;
      mute_end_time =
          coalesce-last_known (λ p. p.mute_end_time) conv ps conv.mute_end_time old.mute_end_time
            refl h.mute_end_time;
      transfer_type =
          coalesce-last_known (λ p. p.end_of_history_transfer_type) conv ps
            conv.end_of_history_transfer_type old.end_of_history_transfer_type refl h.transfer_type;
      expiration =
          coalesce-last_known (λ p. p.ephemeral_expiration) conv ps conv.ephemeral_expiration
            old.ephemeral_expiration refl h.expiration;
      setting =
          coalesce-last_known (λ p. p.ephemeral_setting_timestamp) conv ps
            conv.ephemeral_setting_timestamp old.ephemeral_setting_timestamp refl h.setting;
      unread_mark =
          coalesce-last_known (λ p. p.marked_as_unread) conv ps conv.marked_as_unread
            old.marked_as_unread refl h.unread_mark;
      unread =
          coalesce-last_known (λ p. p.unread_count) conv ps conv.unread_count old.unread_count refl
            h.unread;
      bridged = refl;
    }

pub inserted-IsSummary :
    (bridge : Bytes) (conv : Conversation)
    → conv.bridged ≡ false
    → IsSummary (conv ∷ []) false (in_bridge bridge conv)
unfolding IsOneOf
inserted-IsSummary bridge conv e = record {
  newest = (NotAfter-refl conv.last_message_timestamp, tt);
  put_once = inl refl;
  archived = last_known-one (λ p. p.archived) conv;
  pinned = last_known-one (λ p. p.pinned) conv;
  mute_end_time = last_known-one (λ p. p.mute_end_time) conv;
  transfer_type = last_known-one (λ p. p.end_of_history_transfer_type) conv;
  expiration = last_known-one (λ p. p.ephemeral_expiration) conv;
  setting = last_known-one (λ p. p.ephemeral_setting_timestamp) conv;
  unread_mark = last_known-one (λ p. p.marked_as_unread) conv;
  unread = last_known-one (λ p. p.unread_count) conv;
  bridged = e;
}

pub marked-IsSummary :
    (ps : List Conversation) (b : Bool) (r : Conversation)
    → IsSummary ps b r
    → IsSummary ps true (record r { bridged = true })
marked-IsSummary ps b r h = record {
  newest = h.newest;
  put_once = h.put_once;
  archived = h.archived;
  pinned = h.pinned;
  mute_end_time = h.mute_end_time;
  transfer_type = h.transfer_type;
  expiration = h.expiration;
  setting = h.setting;
  unread_mark = h.unread_mark;
  unread = h.unread;
  bridged = refl;
}
