-- ===== src/Wadb/Message/Sorting.antt =====
-- A concrete order of the database: rows sorted by insertion, the newest first.
use whatsapp_matrix_bridge.Common.{
  ℕ, ◌≤◌, Bool-cases, inl, inr, List, [], ◌∷◌, All, leb, if◌then◌else◌, arith,
}
use mathlib.Core.List.{Perm}
use mathlib.Core.List.Perm as Perm
use whatsapp_matrix_bridge.Wadb.Message.{Row, Descends, Sorter}

module _ {M : Type 0} where
  unfoldable pub place : Row M → List (Row M) → List (Row M)
  place r [] = r ∷ []
  place r (s ∷ rows) =
      let rest = place r rows in if leb s.timestamp r.timestamp then r ∷ s ∷ rows else s ∷ rest

  unfoldable pub sort : List (Row M) → List (Row M)
  sort [] = []
  sort (r ∷ rows) = place r (sort rows)

  place-perm : (r : Row M) (rows : List (Row M)) → Perm (place r rows) (r ∷ rows)
  unfolding place
  place-perm r [] = Perm.rfl
  place-perm r (s ∷ rows) = elim (Bool-cases (leb s.timestamp r.timestamp)) [
    | inl e ↦ rw (e) Perm.rfl
    | inr e ↦ rw (e) (Perm.trans (Perm.cons s (place-perm r rows)) (Perm.swap r s rows))
  ]

  pub sort-perm : (rows : List (Row M)) → Perm (sort rows) rows
  unfolding sort
  sort-perm [] = Perm.rfl
  sort-perm (r ∷ rows) = Perm.trans (place-perm r (sort rows)) (Perm.cons r (sort-perm rows))

  place-All :
      (t : ℕ) (r : Row M) (rows : List (Row M))
      → r.timestamp ≤ t
      → All (λ s. s.timestamp ≤ t) rows
      → All (λ s. s.timestamp ≤ t) (place r rows)
  unfolding place
  place-All t r [] h hs = (h, tt)
  place-All t r (s ∷ rows) h hs = elim (Bool-cases (leb s.timestamp r.timestamp)) [
    | inl e ↦ rw (e) (h, hs)
    | inr e ↦ rw (e) (hs.0, place-All t r rows h hs.1)
  ]

  below :
      (a b : ℕ) (rows : List (Row M))
      → a ≤ b
      → All (λ s. s.timestamp ≤ a) rows
      → All (λ s. s.timestamp ≤ b) rows
  below a b [] h hs = tt
  below a b (s ∷ rows) h hs = (omega (arith, h, hs.0), below a b rows h hs.1)

  place-Descends : (r : Row M) (rows : List (Row M)) → Descends rows → Descends (place r rows)
  unfolding place
  place-Descends r [] d = (tt, tt)
  place-Descends r (s ∷ rows) d = elim (Bool-cases (leb s.timestamp r.timestamp)) [
    | inl e ↦
        let le : s.timestamp ≤ r.timestamp = ground (arith, e) in
        rw (e) ((le, below s.timestamp r.timestamp rows le d.0), d)
    | inr e ↦
        let le : r.timestamp ≤ s.timestamp = ground (arith, e) in
        rw (e) (place-All s.timestamp r rows le d.0, place-Descends r rows d.1)
  ]

  pub sort-Descends : (rows : List (Row M)) → Descends (sort rows)
  unfolding sort
  sort-Descends [] = tt
  sort-Descends (r ∷ rows) = place-Descends r (sort rows) (sort-Descends rows)

  unfoldable pub by_insertion : Sorter M
  unfolding sort place
  by_insertion = record { order = sort; order-perm = sort-perm; order-Descends = sort-Descends }
