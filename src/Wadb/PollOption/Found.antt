-- ===== src/Wadb/PollOption/Found.antt =====
-- That the options of a poll are found again, by their hashes and by their IDs.
use whatsapp_matrix_bridge.Common.{
  ◌≡◌, refl, Bool, true, false, ◌&&◌, some, List, [], ◌∷◌, length, All, arith, Bool-cases,
  Option-cases, inl, inr, ◌∙◌, Bytes, beq, beq_iff, Bytes-discrete,
}
use mathlib.Core.Path.{subst}
use whatsapp_matrix_bridge.Wadb.PollOption.{
  PollOption, Entry, is_of, insert_all, put, is_among, scan_poll_option, scan_all, get_ids,
  get_hashes, id_of, hash_of,
}
use whatsapp_matrix_bridge.Wadb.PollOption.Stored.{
  stored_id, stored_hash, IsChecked, IsIn, AreStored, insert_all-AreStored, insert_all-IsChecked,
  AreStored-IsIn,
}

module _ (bridge mxid : Bytes) where
  is_among-ne :
      (h k : Bytes) (hashes : List Bytes)
      → is_among h hashes ≡ true
      → is_among k hashes ≡ false
      → beq Bytes-discrete k h ≡ false
  is_among-ne h k hashes yes_ no_ = ground (arith, yes_, no_, beq_iff Bytes-discrete k h)

  get_ids-lem :
      (hashes : List Bytes) (h : Bytes) (rows : List PollOption)
      → is_among h hashes ≡ true
      → IsChecked rows
      → (es : List Entry) × (get_ids bridge mxid hashes rows ≡ some es)
        × (id_of h es ≡ stored_id bridge mxid h rows)
  unfolding get_ids scan_all scan_poll_option id_of stored_id IsChecked
  get_ids-lem hashes h [] among checked = ([], refl, refl)
  get_ids-lem hashes h (r ∷ rows) among (long, checked) =
      let (es, e, same) = get_ids-lem hashes h rows among checked in
      elim (Bool-cases (is_of bridge mxid r && is_among r.hash hashes)) [
        | inl y ↦ (
          record { hash = r.hash; id = r.id } ∷ es,
          ground (arith, y, e, long),
          ground (arith, y, same),
        )
        | inr n ↦
            (es, ground (arith, n, e), ground (arith, n, same, is_among-ne h r.hash hashes among))
      ]

  get_hashes-lem :
      (ids : List Bytes) (i : Bytes) (rows : List PollOption)
      → is_among i ids ≡ true
      → IsChecked rows
      → (es : List Entry) × (get_hashes bridge mxid ids rows ≡ some es)
        × (hash_of i es ≡ stored_hash bridge mxid i rows)
  unfolding get_hashes scan_all scan_poll_option hash_of stored_hash IsChecked
  get_hashes-lem ids i [] among checked = ([], refl, refl)
  get_hashes-lem ids i (r ∷ rows) among (long, checked) =
      let (es, e, same) = get_hashes-lem ids i rows among checked in
      elim (Bool-cases (is_of bridge mxid r && is_among r.id ids)) [
        | inl y ↦ (
          record { hash = r.hash; id = r.id } ∷ es,
          ground (arith, y, e, long),
          ground (arith, y, same),
        )
        | inr n ↦ (es, ground (arith, n, e), ground (arith, n, same, is_among-ne i r.id ids among))
      ]

  -- The queries find an entry: its ID by its hash, and its hash by its ID.
  pub record IsFound (e : Entry) (hashes ids : List Bytes) (rows : List PollOption) : Type 0 where
    pub by_hash :
        is_among e.hash hashes ≡ true
        → (es : List Entry) × (get_ids bridge mxid hashes rows ≡ some es)
          × (id_of e.hash es ≡ some e.id)
    pub by_id :
        is_among e.id ids ≡ true
        → (es : List Entry) × (get_hashes bridge mxid ids rows ≡ some es)
          × (hash_of e.id es ≡ some e.hash)

  AreStored-IsFound :
      (es : List Entry) (rows : List PollOption) (e : Entry) (hashes ids : List Bytes)
      → AreStored bridge mxid es rows
      → IsChecked rows
      → IsIn e es
      → IsFound e hashes ids rows
  AreStored-IsFound es rows e hashes ids stored checked among =
      let (id, hash) = AreStored-IsIn bridge mxid es rows e stored among in
      record {
        by_hash = λ wanted.
            let (found, answer, same) = get_ids-lem hashes e.hash rows wanted checked in
            (found, answer, same ∙ id);
        by_id = λ wanted.
            let (found, answer, same) = get_hashes-lem ids e.id rows wanted checked in
            (found, answer, same ∙ hash);
      }

  pub put-IsChecked :
      (refused : Bool) (es : List Entry) (rows : List PollOption)
      → IsChecked rows
      → All (λ f. length f.hash ≡ 32) es
      → IsChecked (put bridge mxid refused es rows).0
  unfolding put
  put-IsChecked refused [] rows checked long = checked
  put-IsChecked true (f ∷ fs) rows checked long = checked
  put-IsChecked false (f ∷ fs) rows checked long =
      elim (Option-cases (insert_all bridge mxid (f ∷ fs) rows)) [
        | inl n ↦ ground (arith, n, checked)
        | inr (after, n) ↦
            ground (arith, n, insert_all-IsChecked bridge mxid (f ∷ fs) rows after long checked n)
      ]

  -- Where Put of the options of a poll succeeds, into a table whose hashes are of 32 bytes as are
  -- those that are put, each option that was put is found afterwards: GetIDs answers its ID for
  -- its hash, among whatever hashes are asked for, and GetHashes its hash for its ID.
  pub put-IsFound :
      (refused : Bool) (es : List Entry) (rows : List PollOption) (e : Entry)
      (hashes ids : List Bytes)
      → IsChecked rows
      → All (λ f. length f.hash ≡ 32) es
      → (put bridge mxid refused es rows).1 ≡ true
      → IsIn e es
      → IsFound e hashes ids (put bridge mxid refused es rows).0
  unfolding put IsIn
  put-IsFound refused [] rows e hashes ids checked long done among = absurd among
  put-IsFound true (f ∷ fs) rows e hashes ids checked long done among = ground (arith, done)
  put-IsFound false (f ∷ fs) rows e hashes ids checked long done among =
      elim (Option-cases (insert_all bridge mxid (f ∷ fs) rows)) [
        | inl n ↦ ground (arith, done, n)
        | inr (after, n) ↦
            let same : after ≡ (put bridge mxid false (f ∷ fs) rows).0 = ground (arith, n) in
            subst (IsFound e hashes ids) same (
              AreStored-IsFound (f ∷ fs) after e hashes ids
                (insert_all-AreStored bridge mxid (f ∷ fs) rows after n)
                (insert_all-IsChecked bridge mxid (f ∷ fs) rows after long checked n) among)
      ]
