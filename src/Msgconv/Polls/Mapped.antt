-- ===== src/Msgconv/Polls/Mapped.antt =====
-- Lists of options, and what the queries for a vote find of them.
use whatsapp_matrix_bridge.Common.{
  ◌≡◌, refl, sym, Bool, true, some, List, [], ◌∷◌, map, length, All, arith, Bool-cases, inl, inr,
  Bytes, beq_refl, Bytes-discrete,
}
use mathlib.Core.Path.{subst}
use whatsapp_matrix_bridge.Wadb.PollOption.{
  PollOption, Entry, is_among, get_ids, get_hashes, id_of, hash_of, scan_all, scan_poll_option,
}
use whatsapp_matrix_bridge.Wadb.PollOption.Stored.{IsChecked, IsIn}
use whatsapp_matrix_bridge.Msgconv.Polls.{mapped_hashes, mapped_answers}

abbrev pub hash_in : Entry → Bytes
hash_in e = e.hash

abbrev pub id_in : Entry → Bytes
id_in e = e.id

pub IsIn-is_among :
    (e : Entry) (es : List Entry)
    → IsIn e es
    → (is_among e.hash (map hash_in es) ≡ true) × (is_among e.id (map id_in es) ≡ true)
unfolding is_among IsIn
IsIn-is_among e [] among = absurd among
IsIn-is_among e (f ∷ fs) (inl same) =
    ground (arith, same, beq_refl Bytes-discrete e.hash, beq_refl Bytes-discrete e.id)
IsIn-is_among e (f ∷ fs) (inr later) = ground (arith, IsIn-is_among e fs later)

-- Every part of the vote is found in the answers of the two queries.
unfoldable pub IsMapped : List Entry → List Entry → Entry → Type 0
IsMapped hashes ids e =
    (hash_of e.id hashes ≡ some e.hash) × (id_of e.hash ids ≡ some e.id) × (length e.hash ≡ 32)

pub mapped :
    (hashes ids chosen : List Entry)
    → All (IsMapped hashes ids) chosen
    → (mapped_hashes hashes (map id_in chosen) ≡ map hash_in chosen)
      × (mapped_answers ids (map hash_in chosen) ≡ map id_in chosen)
unfolding mapped_hashes mapped_answers IsMapped
mapped hashes ids [] h = (refl, refl)
mapped hashes ids (e ∷ chosen) (this, rest) = ground (arith, this, mapped hashes ids chosen rest)

module _ (bridge : Bytes) where
  scan_all-some :
      (selects : PollOption → Bool) (rows : List PollOption)
      → IsChecked rows
      → (es : List Entry) × (scan_all selects rows ≡ some es)
  unfolding scan_all scan_poll_option IsChecked
  scan_all-some selects [] checked = ([], refl)
  scan_all-some selects (r ∷ rows) (long, checked) =
      let (es, e) = scan_all-some selects rows checked in
      elim (Bool-cases (selects r)) [
        | inl y ↦ (record { hash = r.hash; id = r.id } ∷ es, ground (arith, y, e, long))
        | inr n ↦ (es, ground (arith, n, e))
      ]

  pub get_ids-some :
      (mxid : Bytes) (hashes : List Bytes) (rows : List PollOption)
      → IsChecked rows
      → (es : List Entry) × (get_ids bridge mxid hashes rows ≡ some es)
  unfolding get_ids
  get_ids-some mxid hashes rows checked = scan_all-some _ rows checked

  pub get_hashes-some :
      (mxid : Bytes) (ids : List Bytes) (rows : List PollOption)
      → IsChecked rows
      → (es : List Entry) × (get_hashes bridge mxid ids rows ≡ some es)
  unfolding get_hashes
  get_hashes-some mxid ids rows checked = scan_all-some _ rows checked

pub All-of : (P : Entry → Type 0) (es : List Entry) → ((e : Entry) → IsIn e es → P e) → All P es
unfolding IsIn
All-of P [] h = tt
All-of P (e ∷ es) h = (h e (inl refl), All-of P es (λ f among. h f (inr among)))

pub All-at : (P : Entry → Type 0) (es : List Entry) → All P es → (e : Entry) → IsIn e es → P e
unfolding IsIn
All-at P [] h e among = absurd among
All-at P (f ∷ fs) h e (inl same) = subst P (sym same) h.0
All-at P (f ∷ fs) h e (inr later) = All-at P fs h.1 e later
