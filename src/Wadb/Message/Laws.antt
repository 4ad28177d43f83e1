-- ===== src/Wadb/Message/Laws.antt =====
-- The table of history sync messages: its primary key, and what insertions leave alone.
use whatsapp_matrix_bridge.Common.{
  ◌≡◌, refl, ◌∙◌, true, false, Bool-cases, inl, inr, List, [], ◌∷◌, ◌++◌, arith, All, beq_iff,
  Bytes-discrete,
}
use whatsapp_matrix_bridge.Waid.Jid.{Jid-discrete}
use whatsapp_matrix_bridge.Wadb.Message.{Row, same_key, has_key, insert, insert_all}

module _ {M : Type 0} where
  -- No two rows have one primary key.
  abbrev pub IsKeyed : List (Row M) → Type 0
  IsKeyed [] = Unit {0}
  IsKeyed (r ∷ rows) = (has_key r rows ≡ false) × IsKeyed rows

  has_key-append :
      (r s : Row M) (rows : List (Row M))
      → has_key r rows ≡ false
      → same_key s r ≡ false
      → has_key r (rows ++ (s ∷ [])) ≡ false
  unfolding has_key
  has_key-append r s [] h k = ground arith
  has_key-append r s (t ∷ rows) h k = ground (arith, has_key-append r s rows)

  same_key_symm : (r s : Row M) → same_key r s ≡ same_key s r
  unfolding same_key
  same_key_symm r s = ground (
    arith,
    beq_iff Bytes-discrete r.bridge_id s.bridge_id,
    beq_iff Bytes-discrete s.bridge_id r.bridge_id,
    beq_iff Bytes-discrete r.user_login_id s.user_login_id,
    beq_iff Bytes-discrete s.user_login_id r.user_login_id,
    beq_iff Jid-discrete r.chat_jid s.chat_jid,
    beq_iff Jid-discrete s.chat_jid r.chat_jid,
    beq_iff Jid-discrete r.sender_jid s.sender_jid,
    beq_iff Jid-discrete s.sender_jid r.sender_jid,
    beq_iff Bytes-discrete r.message_id s.message_id,
    beq_iff Bytes-discrete s.message_id r.message_id,
  )

  append-IsKeyed :
      (r : Row M) (rows : List (Row M))
      → has_key r rows ≡ false
      → IsKeyed rows
      → IsKeyed (rows ++ (r ∷ []))
  append-IsKeyed r [] h k = unfold has_key in (refl, tt)
  append-IsKeyed r (s ∷ rows) h (new, k) =
      let (apart, absent) = split in
      (has_key-append s r rows new (same_key_symm r s ∙ apart), append-IsKeyed r rows absent k)
    where
      split : (same_key s r ≡ false) × (has_key r rows ≡ false)
      split = unfold has_key in ground arith

  insert-IsKeyed : (r : Row M) (rows : List (Row M)) → IsKeyed rows → IsKeyed (insert r rows)
  unfolding insert
  insert-IsKeyed r rows k = elim (Bool-cases (has_key r rows)) [
    | inl old ↦ rw old k
    | inr new ↦ rw new (append-IsKeyed r rows new k)
  ]

  pub insert_all-IsKeyed : (rs rows : List (Row M)) → IsKeyed rows → IsKeyed (insert_all rs rows)
  unfolding insert_all
  insert_all-IsKeyed [] rows k = k
  insert_all-IsKeyed (r ∷ rs) rows k =
      insert_all-IsKeyed rs (insert r rows) (insert-IsKeyed r rows k)

  has_key-append_left :
      (r : Row M) (rows more : List (Row M))
      → has_key r rows ≡ true
      → has_key r (rows ++ more) ≡ true
  unfolding has_key
  has_key-append_left r [] more h = cc
  has_key-append_left r (s ∷ rows) more h = ground (arith, has_key-append_left r rows more)

  same_key_refl : (r : Row M) → same_key r r ≡ true
  unfolding same_key
  same_key_refl r = ground (
    arith,
    beq_iff Bytes-discrete r.bridge_id r.bridge_id,
    beq_iff Bytes-discrete r.user_login_id r.user_login_id,
    beq_iff Jid-discrete r.chat_jid r.chat_jid,
    beq_iff Jid-discrete r.sender_jid r.sender_jid,
    beq_iff Bytes-discrete r.message_id r.message_id,
  )

  has_key-append_self : (r : Row M) (rows : List (Row M)) → has_key r (rows ++ (r ∷ [])) ≡ true
  unfolding has_key
  has_key-append_self r [] = ground (arith, same_key_refl r)
  has_key-append_self r (s ∷ rows) = ground (arith, has_key-append_self r rows)

  has_key-insert :
      (r s : Row M) (rows : List (Row M)) → has_key r rows ≡ true → has_key r (insert s rows) ≡ true
  unfolding insert
  has_key-insert r s rows h = ground (arith, has_key-append_left r rows (s ∷ []) h)

  has_key-insert_self : (r : Row M) (rows : List (Row M)) → has_key r (insert r rows) ≡ true
  unfolding insert
  has_key-insert_self r rows = ground (arith, has_key-append_self r rows)

  has_key-insert_all :
      (r : Row M) (rs rows : List (Row M))
      → has_key r rows ≡ true
      → has_key r (insert_all rs rows) ≡ true
  unfolding insert_all
  has_key-insert_all r [] rows h = h
  has_key-insert_all r (s ∷ rs) rows h =
      has_key-insert_all r rs (insert s rows) (has_key-insert r s rows h)

  abbrev pub AllStored : List (Row M) → List (Row M) → Type 0
  AllStored rs rows = All (λ r. has_key r rows ≡ true) rs

  pub insert_all-AllStored : (rs rows : List (Row M)) → AllStored rs (insert_all rs rows)
  unfolding insert_all
  insert_all-AllStored [] rows = tt
  insert_all-AllStored (r ∷ rs) rows = (
    has_key-insert_all r rs (insert r rows) (has_key-insert_self r rows),
    insert_all-AllStored rs (insert r rows),
  )

  -- Rows whose keys are all there change nothing.
  pub insert_all_stored : (rs rows : List (Row M)) → AllStored rs rows → insert_all rs rows ≡ rows
  unfolding insert_all
  insert_all_stored [] rows h = refl
  insert_all_stored (r ∷ rs) rows (h, hs) =
      let kept : insert r rows ≡ rows = unfold insert in ground arith in
      rw kept (insert_all_stored rs rows hs)

  pub insert_all-append :
      (rs ss rows : List (Row M)) → insert_all (rs ++ ss) rows ≡ insert_all ss (insert_all rs rows)
  unfolding insert_all
  insert_all-append [] ss rows = refl
  insert_all-append (r ∷ rs) ss rows = insert_all-append rs ss (insert r rows)
