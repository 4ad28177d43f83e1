-- ===== src/Connector/Backfill/Cut.antt =====
-- The cut at the end of a page, on a list of messages from the newest to the oldest.
use whatsapp_matrix_bridge.Common.{
  ℕ, zero, suc, ◌<◌, ◌≤◌, ◌≡◌, refl, sym, ap, ◌∙◌, ◌⊎◌, inl, inr, true, Bool-cases, none, some,
  Option-cases, List, [], ◌∷◌, ◌++◌, append_assoc, ltb, length, take, drop, take-append-drop, All,
  All-append, arith,
}
use whatsapp_matrix_bridge.Connector.Backfill.{oldest_of, cut_oldest, page}
use mathlib.Core.Path.{subst}

module _ {M : Type 0} (stamp : M → ℕ) where
  -- From the newest to the oldest.
  abbrev pub Falls : List M → Type 0
  Falls [] = Unit {0}
  Falls (m ∷ ms) = All (λ n. stamp n ≤ stamp m) ms × Falls ms

  All-le_trans :
      (a b : ℕ) (ms : List M) → a ≤ b → All (λ n. stamp n ≤ a) ms → All (λ n. stamp n ≤ b) ms
  All-le_trans a b [] h hs = tt
  All-le_trans a b (m ∷ ms) h hs = (omega arith, All-le_trans a b ms h hs.1)

  -- What follows a list that falls is not after its last message.
  oldest_of-append :
      (m : M) (ms rest : List M)
      → Falls (m ∷ (ms ++ rest))
      → All (λ n. stamp n ≤ oldest_of stamp m ms) rest
  unfolding oldest_of
  oldest_of-append m [] rest f = f.0
  oldest_of-append m (n ∷ ms) rest f = oldest_of-append n ms rest f.1

  Falls-front : (ms rest : List M) → Falls (ms ++ rest) → Falls ms
  Falls-front [] rest f = tt
  Falls-front (m ∷ ms) rest f = (front ms f.0, Falls-front ms rest f.1)
    where
      front :
          (ns : List M)
          → All (λ n. stamp n ≤ stamp m) (ns ++ rest)
          → All (λ n. stamp n ≤ stamp m) ns
      front [] h = tt
      front (n ∷ ns) h = (h.0, front ns h.1)

  cut_oldest-none : (t : ℕ) (ms : List M) → cut_oldest stamp t ms ≡ none → All (λ n. stamp n ≤ t) ms
  unfolding cut_oldest
  cut_oldest-none t [] e = tt
  cut_oldest-none t (m ∷ ms) e = ground (arith, cut_oldest-none t ms)

  -- The cut splits the list, and what it takes off is not newer than the bound.
  cut_oldest-some :
      (t : ℕ) (ms kept : List M)
      → cut_oldest stamp t ms ≡ some kept
      → (off : List M) × (kept ++ off ≡ ms) × All (λ n. stamp n ≤ t) off
  unfolding cut_oldest
  cut_oldest-some t [] kept e = cc
  cut_oldest-some t (m ∷ ms) kept e = elim (Option-cases (cut_oldest stamp t ms)) [
    | inr (front, found) ↦
        let (off, split, old) = cut_oldest-some t ms front found in
        let same : m ∷ front ≡ kept = ground arith in (off, cc, old)
    | inl gone ↦ let same : m ∷ [] ≡ kept = ground arith in (ms, cc, cut_oldest-none t ms gone)
  ]

  -- Where anything is newer than the bound, so is the first.
  cut_oldest_first :
      (t : ℕ) (m : M) (ms kept : List M)
      → All (λ n. stamp n ≤ stamp m) ms
      → cut_oldest stamp t ms ≡ some kept
      → t < stamp m
  unfolding cut_oldest
  cut_oldest_first t m [] kept h e = cc
  cut_oldest_first t m (n ∷ ms) kept h e = elim (Option-cases (cut_oldest stamp t ms)) [
    | inr (front, found) ↦ cut_oldest_first t m ms front h.1 found
    | inl gone ↦ ground (arith, h.0)
  ]

  -- What is kept is newer than the bound.
  pub cut_oldest_newer :
      (t : ℕ) (ms kept : List M)
      → Falls ms
      → cut_oldest stamp t ms ≡ some kept
      → All (λ n. t < stamp n) kept
  unfolding cut_oldest
  cut_oldest_newer t [] kept f e = cc
  cut_oldest_newer t (m ∷ ms) kept f e = elim (Option-cases (cut_oldest stamp t ms)) [
    | inr (front, found) ↦
        let same : m ∷ front ≡ kept = ground arith in
        subst (All (λ n. t < stamp n)) same
          (cut_oldest_first t m ms front f.0 found, cut_oldest_newer t ms front f.1 found)
    | inl gone ↦
        let same : m ∷ [] ≡ kept = ground arith in
        let newer : t < stamp m = ground arith in subst (All (λ n. t < stamp n)) same (newer, tt)
  ]

  -- Where fewer are taken than were asked for, none is left.
  drop_short : (n : ℕ) (ms : List M) → length (take (suc n) ms) ≤ n → drop (suc n) ms ≡ []
  drop_short n [] h = refl
  drop_short zero (m ∷ ms) h = absurd (omega (arith, h))
  drop_short (suc n) (m ∷ ms) h = drop_short n ms (omega (arith, h))

  -- A page splits the messages of its range: what is left out is not newer than the oldest message
  -- that was read, and where `hasMore` is false nothing is left out.
  pub page_split :
      (count : ℕ) (all : List M) (m : M) (ms : List M)
      → Falls all
      → take (suc count) all ≡ m ∷ ms
      → (rest : List M) × ((page stamp count m ms).0 ++ rest ≡ all)
        × All (λ n. stamp n ≤ oldest_of stamp m ms) rest
        × (((page stamp count m ms).1 ≡ true) ⊎ (rest ≡ []))
  unfolding page
  page_split count all m ms f e =
      let split : (m ∷ ms) ++ drop (suc count) all ≡ all =
        ap (λ (x : List M). x ++ drop (suc count) all) (sym e) ∙ take-append-drop (suc count) all in
      let t = oldest_of stamp m ms in
      let old : All (λ n. stamp n ≤ t) (drop (suc count) all) =
        oldest_of-append m ms (drop (suc count) all) (subst Falls (sym split) f) in
      elim (Bool-cases (ltb count (length (m ∷ ms)))) [
        | inr short ↦
            let few : length (m ∷ ms) ≤ count = ground (arith, short) in
            let none_left : drop (suc count) all ≡ [] =
              drop_short count all (omega (arith, ap length e, few)) in
            rw (short) (drop (suc count) all, split, old, inr none_left)
        | inl long ↦ rw (long) (elim (Option-cases (cut_oldest stamp t (m ∷ ms))) [
          | inl whole ↦ rw (whole) (drop (suc count) all, split, old, inl refl)
          | inr (kept, found) ↦
              let (off, back, off_old) = cut_oldest-some t (m ∷ ms) kept found in
              rw (found) (
                off ++ drop (suc count) all,
                sym (append_assoc kept off (drop (suc count) all))
                    ∙ ap (λ (x : List M). x ++ drop (suc count) all) back
                    ∙ split,
                All-append _ off (drop (suc count) all) off_old old,
                inl refl,
              )
        ])
      ]
