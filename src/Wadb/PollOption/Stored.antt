-- ===== src/Wadb/PollOption/Stored.antt =====
-- Which row of a poll is the first with a hash or an ID, and that insertions leave it so.
use whatsapp_matrix_bridge.Common.{
  ◌≡◌, refl, false, ◌&&◌, Option, none, some, List, [], ◌∷◌, ◌++◌, length, All, arith, Bool-cases,
  inl, inr, ◌⊎◌, All-append, Bytes, beq, beq_refl, Bytes-discrete, if◌then◌else◌,
}
use whatsapp_matrix_bridge.Wadb.PollOption.{PollOption, Entry, to_row, is_of, conflicts, insert_all}

-- The ID that the first row of a poll with a hash has.
unfoldable pub stored_id : Bytes → Bytes → Bytes → List PollOption → Option Bytes
stored_id bridge mxid h [] = none
stored_id bridge mxid h (r ∷ rows) =
    let rest = stored_id bridge mxid h rows in
    if is_of bridge mxid r && beq Bytes-discrete r.hash h then some r.id else rest

unfoldable pub stored_hash : Bytes → Bytes → Bytes → List PollOption → Option Bytes
stored_hash bridge mxid i [] = none
stored_hash bridge mxid i (r ∷ rows) =
    let rest = stored_hash bridge mxid i rows in
    if is_of bridge mxid r && beq Bytes-discrete r.id i then some r.hash else rest

-- The database checks the length of the hashes.
unfoldable pub IsChecked : List PollOption → Type 0
IsChecked = All (λ r. length r.hash ≡ 32)

unfoldable pub IsIn : Entry → List Entry → Type 0
IsIn e [] = ⊥
IsIn e (f ∷ fs) = (e ≡ f) ⊎ IsIn e fs

module _ (bridge mxid : Bytes) where
  stored-append :
      (rows more : List PollOption) (b v : Bytes)
      → (stored_id bridge mxid b rows ≡ some v → stored_id bridge mxid b (rows ++ more) ≡ some v)
        × (stored_hash bridge mxid b rows ≡ some v
            → stored_hash bridge mxid b (rows ++ more) ≡ some v)
  unfolding stored_id stored_hash
  stored-append [] more b v = ground arith
  stored-append (r ∷ rows) more b v = ground (arith, stored-append rows more b v)

  -- A row that conflicts with none is the one that is found.
  stored-new :
      (rows : List PollOption) (r : PollOption)
      → r.bridge_id ≡ bridge
      → r.mxid ≡ mxid
      → conflicts r rows ≡ false
      → (stored_id bridge mxid r.hash (rows ++ (r ∷ [])) ≡ some r.id)
        × (stored_hash bridge mxid r.id (rows ++ (r ∷ [])) ≡ some r.hash)
  unfolding stored_id stored_hash conflicts is_of
  stored-new [] r eb em h = ground (
    arith,
    eb,
    em,
    beq_refl Bytes-discrete bridge,
    beq_refl Bytes-discrete mxid,
    beq_refl Bytes-discrete r.hash,
    beq_refl Bytes-discrete r.id,
  )
  stored-new (s ∷ rows) r eb em h = ground (arith, eb, em, h, stored-new rows r eb em)

  -- Each entry is found by its hash and by its ID.
  abbrev pub AreStored : List Entry → List PollOption → Type 0
  AreStored es rows =
      All
        (λ e.
          (stored_id bridge mxid e.hash rows ≡ some e.id)
          × (stored_hash bridge mxid e.id rows ≡ some e.hash))
        es

  insert_all-keeps :
      (es : List Entry) (rows after : List PollOption) (b v : Bytes)
      → insert_all bridge mxid es rows ≡ some after
      → (stored_id bridge mxid b rows ≡ some v → stored_id bridge mxid b after ≡ some v)
        × (stored_hash bridge mxid b rows ≡ some v → stored_hash bridge mxid b after ≡ some v)
  unfolding insert_all
  insert_all-keeps [] rows after b v h = ground (arith, h)
  insert_all-keeps (e ∷ es) rows after b v h =
      let r = to_row bridge mxid e in
      elim (Bool-cases (conflicts r rows)) [
        | inl bad ↦ ground (arith, h, bad)
        | inr good ↦ ground (
          arith,
          h,
          good,
          stored-append rows (r ∷ []) b v,
          insert_all-keeps es (rows ++ (r ∷ [])) after b v,
        )
      ]

  pub insert_all-AreStored :
      (es : List Entry) (rows after : List PollOption)
      → insert_all bridge mxid es rows ≡ some after
      → AreStored es after
  unfolding insert_all
  insert_all-AreStored [] rows after h = tt
  insert_all-AreStored (e ∷ es) rows after h =
      let r = to_row bridge mxid e in
      elim (Bool-cases (conflicts r rows)) [
        | inl bad ↦ ground (arith, h, bad)
        | inr good ↦
            let later : insert_all bridge mxid es (rows ++ (r ∷ [])) ≡ some after =
              ground (arith, h, good) in
            let new = stored-new rows r refl refl good in
            (
              (
                (insert_all-keeps es (rows ++ (r ∷ [])) after e.hash e.id later).0 new.0,
                (insert_all-keeps es (rows ++ (r ∷ [])) after e.id e.hash later).1 new.1,
              ),
              insert_all-AreStored es (rows ++ (r ∷ [])) after later,
            )
      ]

  pub insert_all-IsChecked :
      (es : List Entry) (rows after : List PollOption)
      → All (λ e. length e.hash ≡ 32) es
      → IsChecked rows
      → insert_all bridge mxid es rows ≡ some after
      → IsChecked after
  unfolding insert_all IsChecked
  insert_all-IsChecked [] rows after long checked h = ground (arith, h, checked)
  insert_all-IsChecked (e ∷ es) rows after (this, rest) checked h =
      elim (Bool-cases (conflicts (to_row bridge mxid e) rows)) [
        | inl bad ↦ ground (arith, h, bad)
        | inr good ↦
            insert_all-IsChecked es (rows ++ (to_row bridge mxid e ∷ [])) after rest
              (All-append (λ r. length r.hash ≡ 32) rows (to_row bridge mxid e ∷ []) checked
                (this, tt))
              (ground (arith, h, good))
      ]

  pub AreStored-IsIn :
      (es : List Entry) (rows : List PollOption) (e : Entry)
      → AreStored es rows
      → IsIn e es
      → (stored_id bridge mxid e.hash rows ≡ some e.id)
        × (stored_hash bridge mxid e.id rows ≡ some e.hash)
  unfolding IsIn
  AreStored-IsIn [] rows e stored among = absurd among
  AreStored-IsIn (f ∷ fs) rows e (this, rest) (inl same) = ground (arith, same, this)
  AreStored-IsIn (f ∷ fs) rows e (this, rest) (inr later) = AreStored-IsIn fs rows e rest later
