-- ===== src/Connector/Matrix/Reads.antt =====
-- Which messages a read receipt from Matrix marks, under which sender.
use whatsapp_matrix_bridge.Common.{
  ℕ, ◌≡◌, refl, sym, ◌∙◌, ap, ◌-◌, ltb, Bool, true, false, ◌||◌, Option, none, some, List, [], ◌∷◌,
  ◌++◌, append_assoc, append-nil, if◌then◌else◌, Bytes, beq, beq_iff, Bytes-discrete, arith,
  Bool-cases, inl, inr,
}
use mathlib.Core.Path.{subst}
use whatsapp_matrix_bridge.Common.Clock.{Instant}
use whatsapp_matrix_bridge.Common.Result.{Result, ok, err, Result-cases}
use whatsapp_matrix_bridge.Waid.Jid.{Jid, JidLib, Jid-discrete, empty_jid}
use whatsapp_matrix_bridge.Waid.Id.{ParsedMessageId, parse_message_id, parse_portal_id}
use whatsapp_matrix_bridge.Connector.Ids.{Login}
use whatsapp_matrix_bridge.Connector.Matrix.{
  Error, Stored, Groups, append_to, read_key, add_message, group_messages, parsed, query_answer,
  last_read_of, is_after, handle_matrix_read_receipt,
}

-- The IDs that are listed under a sender, none where the sender is not.
unfoldable pub listed : Jid → Groups → List Bytes
listed k [] = []
listed k ((j, ids) ∷ rest) =
    let later = listed k rest in if beq Jid-discrete j k then ids else later

unfoldable pub has_key : Jid → Groups → Bool
has_key k [] = false
has_key k ((j, ids) ∷ rest) = beq Jid-discrete j k || has_key k rest

-- No sender is listed twice.
pub IsDistinct : Groups → Type 0
IsDistinct [] = Unit
IsDistinct ((j, ids) ∷ rest) = (has_key j rest ≡ false) × IsDistinct rest

has_key-append_to :
    (j k : Jid) (id : Bytes) (groups : Groups)
    → has_key k (append_to j id groups) ≡ (beq Jid-discrete j k || has_key k groups)
unfolding has_key append_to
has_key-append_to j k id [] = ground arith
has_key-append_to j k id ((i, ids) ∷ rest) =
    ground (arith, has_key-append_to j k id rest, beq_iff Jid-discrete i j)

append_to-IsDistinct :
    (k : Jid) (id : Bytes) (groups : Groups)
    → IsDistinct groups
    → IsDistinct (append_to k id groups)
unfolding IsDistinct append_to has_key
append_to-IsDistinct k id [] h = (refl, tt)
append_to-IsDistinct k id ((j, ids) ∷ rest) (new, distinct) =
    elim (Bool-cases (beq Jid-discrete j k)) [
      | inl y ↦ rw (y) (new, distinct)
      | inr n ↦ rw (n) (
        ground (
          arith,
          new,
          n,
          has_key-append_to k j id rest,
          beq_iff Jid-discrete j k,
          beq_iff Jid-discrete k j,
        ),
        append_to-IsDistinct k id rest distinct,
      )
    ]

listed-append_to :
    (j k : Jid) (id : Bytes) (groups : Groups)
    → listed k (append_to j id groups)
      ≡ (if beq Jid-discrete j k then listed k groups ++ (id ∷ []) else listed k groups)
unfolding listed append_to
listed-append_to j k id [] = ground arith
listed-append_to j k id ((i, ids) ∷ rest) = ground (
  arith,
  listed-append_to j k id rest,
  beq_iff Jid-discrete i j,
  beq_iff Jid-discrete i k,
  beq_iff Jid-discrete j k,
)

module _ (lib : JidLib) (login : Login) where
  -- The IDs of the messages that are not the login's own and are read under a sender.
  ids_at : Jid → Stored → Result Error ParsedMessageId → List Bytes
  ids_at k msg (err e) = []
  ids_at k msg (ok p) =
      if beq Bytes-discrete msg.sender_id login.id
      then []
      else if beq Jid-discrete (read_key lib login p) k
      then p.id ∷ []
      else []

  unfoldable pub ids_under : Jid → List Stored → List Bytes
  unfolding ids_at
  ids_under k [] = []
  ids_under k (msg ∷ msgs) = ids_at k msg (parsed (parse_message_id lib msg.id)) ++ ids_under k msgs

  add_message-lem :
      (k : Jid) (msg : Stored) (r : Result Error ParsedMessageId) (groups : Groups)
      → IsDistinct groups
      → IsDistinct (add_message lib login r msg groups)
        × (listed k (add_message lib login r msg groups) ≡ listed k groups ++ ids_at k msg r)
  unfolding add_message ids_at
  add_message-lem k msg (err e) groups h = (h, ground (arith, append-nil (listed k groups)))
  add_message-lem k msg (ok p) groups h = ground (
    arith,
    h,
    append-nil (listed k groups),
    append_to-IsDistinct (read_key lib login p) p.id groups h,
    listed-append_to (read_key lib login p) k p.id groups,
  )

  group_messages-lem :
      (k : Jid) (msgs : List Stored) (groups : Groups)
      → IsDistinct groups
      → IsDistinct (group_messages lib login msgs groups)
        × (listed k (group_messages lib login msgs groups) ≡ listed k groups ++ ids_under k msgs)
  unfolding group_messages ids_under
  group_messages-lem k [] groups h = (h, ground (arith, append-nil (listed k groups)))
  group_messages-lem k (msg ∷ msgs) groups h =
      let r = parsed (parse_message_id lib msg.id) in
      let (distinct, added) = add_message-lem k msg r groups h in
      let (all_distinct, rest) =
        group_messages-lem k msgs (add_message lib login r msg groups) distinct in
      (
        all_distinct,
        ground (
          arith,
          added,
          rest,
          append_assoc (listed k groups) (ids_at k msg r) (ids_under k msgs),
        ),
      )

  -- The query starts at the last read message, which is before the new one, or 5 seconds earlier
  -- than that where there is none.
  pub Since : ℕ → Instant → ℕ → Type 0
  Since read_up_to none since = since ≡ read_up_to - 5
  Since read_up_to (some t) since = (since ≡ t) × (ltb t read_up_to ≡ true)

  -- What is marked in the chat of the portal: messages that the query answers, each sender's
  -- together.
  pub record IsMarked (between : ℕ → ℕ → Option (List Stored)) (portal_id : Bytes) (read_up_to : ℕ)
      (last_read : Instant) (chat : Jid) (groups : Groups) : Type 0 where
    pub since : ℕ
    pub messages : List Stored
    pub in_chat : parse_portal_id lib portal_id ≡ ok chat
    pub start : Since read_up_to last_read since
    pub answered : between since read_up_to ≡ some messages
    pub distinct : IsDistinct groups
    pub by_sender : (k : Jid) → listed k groups ≡ ids_under k messages

  since-last_read_of :
      (read_up_to : ℕ) (last_read : Instant)
      → is_after lib login read_up_to last_read ≡ true
      → Since read_up_to last_read (last_read_of lib login read_up_to last_read)
  unfolding Since last_read_of is_after
  since-last_read_of read_up_to none h = refl
  since-last_read_of read_up_to (some t) h = (refl, h)

  -- The messages of an answer, where something is marked.
  query_answer-lem :
      (answer : Option (List Stored)) (jid chat : Jid) (groups : Groups)
      → query_answer lib login jid answer ≡ ok (some (chat, groups))
      → (jid ≡ chat)
        × (msgs : List Stored) × (answer ≡ some msgs)
        × (groups ≡ group_messages lib login msgs [])
  unfolding query_answer
  query_answer-lem none jid chat groups h = ground (arith, h)
  query_answer-lem (some []) jid chat groups h = ground (arith, h)
  query_answer-lem (some (msg ∷ msgs)) jid chat groups h =
      (ground (arith, h), (msg ∷ msgs), refl, ground (arith, h))

  group_messages-listed :
      (msgs : List Stored) (groups : Groups)
      → groups ≡ group_messages lib login msgs []
      → IsDistinct groups × ((k : Jid) → listed k groups ≡ ids_under k msgs)
  unfolding listed IsDistinct
  group_messages-listed msgs groups e = (
    subst IsDistinct (sym e) (group_messages-lem empty_jid msgs [] tt).0,
    λ k. ap (listed k) e ∙ (group_messages-lem k msgs [] tt).1,
  )

  IsMarked-at :
      (between : ℕ → ℕ → Option (List Stored)) (portal_id : Bytes) (read_up_to : ℕ)
      (last_read : Instant) (jid chat : Jid) (groups : Groups)
      → is_after lib login read_up_to last_read ≡ true
      → parse_portal_id lib portal_id ≡ ok jid
      → query_answer lib login jid
          (between (last_read_of lib login read_up_to last_read) read_up_to)
        ≡ ok (some (chat, groups))
      → IsMarked between portal_id read_up_to last_read chat groups
  IsMarked-at between portal_id read_up_to last_read jid chat groups after parsed_portal h =
      let since = last_read_of lib login read_up_to last_read in
      let (same, msgs, answer, made) =
        query_answer-lem (between since read_up_to) jid chat groups h in
      let (distinct, by_sender) = group_messages-listed msgs groups made in
      record {
        since = since;
        messages = msgs;
        in_chat = parsed_portal ∙ ap ok same;
        start = since-last_read_of read_up_to last_read after;
        answered = answer;
        distinct = distinct;
        by_sender = by_sender;
      }

  -- What a read receipt from Matrix marks: where HandleMatrixReadReceipt marks anything, it is in
  -- the chat of the portal, and the messages are those that the query answers from the last read
  -- message, which is before the new one, or from 5 seconds before the new one where none was
  -- read. No sender is marked twice; and under each one stand, in the order of the query, exactly
  -- the WhatsApp IDs of the messages whose ID parses, which are not sent by the login, and whose
  -- sender it is, or, for the empty JID, whose sender is their chat.
  pub handle_matrix_read_receipt-IsMarked :
      (between : ℕ → ℕ → Option (List Stored)) (portal_id : Bytes) (read_up_to : ℕ)
      (last_read : Instant) (chat : Jid) (groups : Groups)
      → handle_matrix_read_receipt lib login between portal_id read_up_to last_read
        ≡ ok (some (chat, groups))
      → IsMarked between portal_id read_up_to last_read chat groups
  unfolding handle_matrix_read_receipt
  handle_matrix_read_receipt-IsMarked between portal_id read_up_to last_read chat groups h =
      elim (Bool-cases (is_after lib login read_up_to last_read)) [
        | inr n ↦ ground (arith, h, n)
        | inl y ↦ elim (Result-cases (parse_portal_id lib portal_id)) [
          | inr (e, n) ↦ ground (arith, h, y, n)
          | inl (jid, n) ↦
              IsMarked-at between portal_id read_up_to last_read jid chat groups y n
                (ground (arith, h, y, n))
        ]
      ]
