-- ===== src/Wadb/Conversation/Known.antt =====
-- The rows of pkg/connector/wadb/conversation.go by chat, and what `Get` answers.
use whatsapp_matrix_bridge.Common.{
  ◌≡◌, ◌≢◌, ◌↔◌, refl, sym, ap, ◌∙◌, inl, inr, Bool, true, false, Bool-cases, Option, none, some,
  List, [], ◌∷◌, All, zero, suc, Option-cases, arith, Bytes, beq_iff, Bytes-discrete,
}
use mathlib.Core.Path.{subst}
use whatsapp_matrix_bridge.Common.Clock.{Instant}
use whatsapp_matrix_bridge.Waid.Jid.{Jid-discrete}
use whatsapp_matrix_bridge.Wadb.Message.{Chat}
use whatsapp_matrix_bridge.Wadb.Conversation.{
  Conversation, is_in, merge, chat_of, put, scan_time, scan, get, mark_bridged,
}
use whatsapp_matrix_bridge.Wadb.Conversation.Upsert.{row, merged_with, row-upsert}
use whatsapp_matrix_bridge.Wadb.Conversation.History.{
  Operation, IsOneOf, last_known, run, in_bridge, IsHistory, start, put_it, put_other, mark_it,
  mark_other, IsSummary, merge-IsSummary, inserted-IsSummary, marked-IsSummary,
}

is_in_iff : (c : Chat) (r : Conversation) → (is_in c r ≡ true) ↔ (chat_of r ≡ c)
unfolding is_in
is_in_iff c r = ground (
  arith,
  beq_iff Bytes-discrete r.bridge_id c.bridge_id,
  beq_iff Bytes-discrete r.user_login_id c.login_id,
  beq_iff Jid-discrete r.chat_jid c.jid,
)

abbrev as_bridged : Option Conversation → Option Conversation
as_bridged none = none
as_bridged (some r) = some (record r { bridged = true })

abbrev scanned : Option Conversation → Option Conversation
scanned none = none
scanned (some r) = some (scan r)

is_in-as_bridged : (c : Chat) (r : Conversation) → is_in c (record r { bridged = true }) ≡ is_in c r
unfolding is_in
is_in-as_bridged c r = refl

row-mark_bridged :
    (c : Chat) (rows : List Conversation) → row c (mark_bridged c rows) ≡ as_bridged (row c rows)
unfolding row mark_bridged
row-mark_bridged c [] = refl
row-mark_bridged c (r ∷ rows) = ground (arith, row-mark_bridged c rows, is_in-as_bridged c r)

-- A row is in one chat.
is_in-other : (c d : Chat) (r : Conversation) → d ≢ c → is_in d r ≡ true → is_in c r ≡ false
is_in-other c d r apart h = elim (Bool-cases (is_in c r)) [
  | inl y ↦ absurd (apart (sym ((is_in_iff d r).0 h) ∙ (is_in_iff c r).0 y))
  | inr n ↦ n
]

row-mark_bridged_other :
    (c d : Chat) (rows : List Conversation) → d ≢ c → row c (mark_bridged d rows) ≡ row c rows
unfolding row mark_bridged
row-mark_bridged_other c d [] apart = refl
row-mark_bridged_other c d (r ∷ rows) apart = elim (Bool-cases (is_in d r)) [
  | inl y ↦ ground (
    arith,
    y,
    is_in-other c d r apart y,
    is_in-as_bridged c r,
    row-mark_bridged_other c d rows apart,
  )
  | inr n ↦ ground (arith, n, row-mark_bridged_other c d rows apart)
]

get-row : (c : Chat) (rows : List Conversation) → get c rows ≡ scanned (row c rows)
unfolding get row
get-row c [] = refl
get-row c (r ∷ rows) = ground (arith, get-row c rows)

row-put :
    (bridge : Bytes) (conv : Conversation) (c : Chat) (rows : List Conversation)
    → chat_of (in_bridge bridge conv) ≡ c
    → row c (put bridge conv rows) ≡ some (merged_with (in_bridge bridge conv) (row c rows))
unfolding put
row-put bridge conv c rows e =
    let r = in_bridge bridge conv in
    let here = (is_in_iff c r).1 e in row-upsert r c rows ∙ ground (arith, here, e)

row-put_other :
    (bridge : Bytes) (conv : Conversation) (c : Chat) (rows : List Conversation)
    → chat_of (in_bridge bridge conv) ≢ c
    → row c (put bridge conv rows) ≡ row c rows
unfolding put
row-put_other bridge conv c rows apart =
    let r = in_bridge bridge conv in
    elim (Bool-cases (is_in c r)) [
      | inl y ↦ absurd (apart ((is_in_iff c r).0 y))
      | inr n ↦ row-upsert r c rows ∙ ground (arith, n)
    ]

-- What there is of a chat, against its conversations: nothing where none was put, and else a
-- summary of them.
pub IsKept : List Conversation → Bool → Option Conversation → Type 0
IsKept [] b o = o ≡ none
IsKept (p ∷ ps) b o = (r : Conversation) × (o ≡ some r) × IsSummary (p ∷ ps) b r

put-IsKept :
    (bridge : Bytes) (conv : Conversation) (ps : List Conversation) (b : Bool)
    (o : Option Conversation)
    → conv.bridged ≡ false
    → IsKept ps b o
    → IsKept (conv ∷ ps) false (some (merged_with (in_bridge bridge conv) o))
unfolding IsKept
put-IsKept bridge conv [] b o e h = (
  in_bridge bridge conv,
  ap (λ u. some (merged_with (in_bridge bridge conv) u)) h,
  inserted-IsSummary bridge conv e,
)
put-IsKept bridge conv (p ∷ ps) b o e (r, h, summary) = (
  merge (in_bridge bridge conv) r,
  ap (λ u. some (merged_with (in_bridge bridge conv) u)) h,
  merge-IsSummary bridge conv r (p ∷ ps) b summary,
)

mark-IsKept :
    (ps : List Conversation) (b : Bool) (o : Option Conversation)
    → IsKept ps b o
    → IsKept ps true (as_bridged o)
unfolding IsKept
mark-IsKept [] b o h = ap as_bridged h
mark-IsKept (p ∷ ps) b o (r, h, summary) =
    (record r { bridged = true }, ap as_bridged h, marked-IsSummary (p ∷ ps) b r summary)

IsHistory-IsKept :
    {bridge : Bytes} {c : Chat} {ops : List Operation} {ps : List Conversation} {b : Bool}
    → IsHistory bridge c ops ps b
    → IsKept ps b (row c (run bridge ops))
unfolding IsKept run row
IsHistory-IsKept start = refl
IsHistory-IsKept {bridge} {c} (put_it conv {ops} {ps} {b} e new h) =
    subst (IsKept (conv ∷ ps) false) (sym (row-put bridge conv c (run bridge ops) e))
      (put-IsKept bridge conv ps b (row c (run bridge ops)) new (IsHistory-IsKept h))
IsHistory-IsKept {bridge} {c} (put_other conv {ops} {ps} {b} apart h) =
    subst (IsKept ps b) (sym (row-put_other bridge conv c (run bridge ops) apart))
      (IsHistory-IsKept h)
IsHistory-IsKept {bridge} {c} (mark_it d {ops} {ps} {b} e h) =
    subst (λ k. IsKept ps true (row c (mark_bridged k (run bridge ops)))) (sym e)
      (subst (IsKept ps true) (sym (row-mark_bridged c (run bridge ops)))
        (mark-IsKept ps b (row c (run bridge ops)) (IsHistory-IsKept h)))
IsHistory-IsKept {bridge} {c} (mark_other d {ops} {ps} {b} apart h) =
    subst (IsKept ps b) (sym (row-mark_bridged_other c d (run bridge ops) apart))
      (IsHistory-IsKept h)

-- Its times are not the Unix epoch, which is read as the zero time. `parseHistoryTime` makes none.
abbrev pub IsTimed : Conversation → Type 0
IsTimed p = (p.last_message_timestamp ≢ some 0) × (p.mute_end_time ≢ some 0)

IsOneOf-IsTimed :
    (t : Instant) (ps : List Conversation) → All IsTimed ps → IsOneOf t ps → t ≢ some 0
unfolding IsOneOf
IsOneOf-IsTimed t [] timed i = absurd i
IsOneOf-IsTimed t (p ∷ ps) timed (inl e) = λ z. timed.0.0 (e ∙ z)
IsOneOf-IsTimed t (p ∷ ps) timed (inr i) = IsOneOf-IsTimed t ps timed.1 i

last_known-IsTimed :
    (ps : List Conversation) → All IsTimed ps → last_known (λ p. p.mute_end_time) ps ≢ some 0
unfolding last_known
last_known-IsTimed [] timed z = ground (arith, z)
last_known-IsTimed (p ∷ ps) timed z = elim (Option-cases p.mute_end_time) [
  | inl e ↦ last_known-IsTimed ps timed.1 (ground (arith, z, e))
  | inr (t, e) ↦ timed.0.1 (ground (arith, z, e))
]

scan_time-same : (t : Instant) → t ≢ some 0 → scan_time t ≡ t
unfolding scan_time
scan_time-same none h = refl
scan_time-same (some zero) h = absurd (h refl)
scan_time-same (some (suc t)) h = refl

scan-same :
    (r : Conversation) → r.last_message_timestamp ≢ some 0 → r.mute_end_time ≢ some 0 → scan r ≡ r
unfolding scan
scan-same r h k =
    ground (arith, scan_time-same r.last_message_timestamp h, scan_time-same r.mute_end_time k)

IsKept-scanned :
    (ps : List Conversation) (b : Bool) (o : Option Conversation)
    → All IsTimed ps
    → IsKept ps b o
    → IsKept ps b (scanned o)
unfolding IsKept
IsKept-scanned [] b o timed h = ap scanned h
IsKept-scanned (p ∷ ps) b o timed (r, h, summary) =
    let last = IsOneOf-IsTimed r.last_message_timestamp (p ∷ ps) timed summary.put_once in
    let mute : r.mute_end_time ≢ some 0 =
      λ z. last_known-IsTimed (p ∷ ps) timed (sym summary.mute_end_time ∙ z) in
    (r, ap scanned h ∙ ap some (scan-same r last mute), summary)

-- However conversations are put into an empty table and chats are marked as bridged, Get answers
-- nothing for a chat for which none was put, and else a conversation that sums up those that were:
-- each optional column is the last one that was known, the time of the last message is that of one
-- of them and not before any other, and it is bridged exactly where the chat was marked after the
-- last put. Those that were put for the chat are not bridged yet, and none of their times is the
-- Unix epoch.
pub get-run :
    {bridge : Bytes} {c : Chat} {ops : List Operation} {ps : List Conversation} {b : Bool}
    → IsHistory bridge c ops ps b
    → All IsTimed ps
    → IsKept ps b (get c (run bridge ops))
get-run {bridge} {c} {ops} {ps} {b} h timed =
    subst (IsKept ps b) (sym (get-row c (run bridge ops)))
      (IsKept-scanned ps b (row c (run bridge ops)) timed (IsHistory-IsKept h))
