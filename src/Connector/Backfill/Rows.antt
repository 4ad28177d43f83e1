-- ===== src/Connector/Backfill/Rows.antt =====
-- The messages of rows in order, and their timestamps as cursors.
use whatsapp_matrix_bridge.Common.{
  ℕ, zero, suc, ◌<◌, ◌≤◌, ◌^◌, ◌≡◌, refl, sym, ap, ◌∙◌, inl, inr, Bool, true, Bool-cases, none,
  some, List, [], ◌∷◌, map, take, All, arith, Bytes,
}
use mathlib.Core.Path.{subst}
use mathlib.Core.List.{Perm}
use mathlib.Core.List.Perm as Perm
use native.Mathlib.Bridge.{le_prop}
use whatsapp_matrix_bridge.Common.Decimal.{
  parse_uint, format_uint, parse_uint-format_uint, parse_uint-nil, parse_uint-digit,
}
use whatsapp_matrix_bridge.Wadb.Message.{Row, at, at_most, Descends, select}
use whatsapp_matrix_bridge.Connector.Backfill.{signed_time, parse_cursor, oldest_of, messages_of}
use whatsapp_matrix_bridge.Connector.Backfill.Cut.{Falls}

parse_cursor-parse_uint :
    (s : Bytes) (n : ℕ) → n < 2 ^ 63 → parse_uint s ≡ some n → parse_cursor s ≡ some (at n)
unfolding parse_cursor signed_time
parse_cursor-parse_uint [] n h e = let no_number : none ≡ some n = sym (parse_uint-nil) ∙ e in cc
parse_cursor-parse_uint (c ∷ s) n h e = ground (arith, parse_uint-digit c s n e)

-- The cursor of a page is a time that the next page reads.
pub parse_cursor-format_uint : (n : ℕ) → n < 2 ^ 63 → parse_cursor (format_uint n) ≡ some (at n)
parse_cursor-format_uint n h =
    parse_cursor-parse_uint (format_uint n) n h (parse_uint-format_uint n (omega (arith, h)))

module _ {M : Type 0} (stamp : M → ℕ) where
  -- The column `timestamp` holds the message's own timestamp, which fits `int64`.
  abbrev pub IsStamped : Row M → Type 0
  IsStamped r = (stamp r.message ≡ r.timestamp) × (r.timestamp < 2 ^ 63)

  pub IsStamped-prop : (r : Row M) → IsProp (IsStamped r)
  IsStamped-prop r = hlevel (le_prop)

  pub messages_of-Falls :
      (rows : List (Row M)) → Descends rows → All IsStamped rows → Falls stamp (messages_of rows)
  unfolding messages_of
  messages_of-Falls [] d h = tt
  messages_of-Falls (r ∷ rows) d h = (below rows d.0 h.1, messages_of-Falls rows d.1 h.1)
    where
      below :
          (ss : List (Row M))
          → All (λ s. s.timestamp ≤ r.timestamp) ss
          → All IsStamped ss
          → All (λ n. stamp n ≤ stamp r.message) (messages_of ss)
      below [] d hs = tt
      below (s ∷ ss) d hs = (omega (arith, h.0.0, hs.0.0, d.0), below ss d.1 hs.1)

  pub messages_of-take :
      (n : ℕ) (rows : List (Row M)) → messages_of (take n rows) ≡ take n (messages_of rows)
  unfolding messages_of
  messages_of-take zero rows = refl
  messages_of-take (suc n) [] = refl
  messages_of-take (suc n) (r ∷ rows) = ap (◌∷◌ r.message) (messages_of-take n rows)

  messages_of-map : (rows : List (Row M)) → map (λ r. r.message) rows ≡ messages_of rows
  unfolding messages_of
  messages_of-map [] = refl
  messages_of-map (r ∷ rows) = ap (◌∷◌ r.message) (messages_of-map rows)

  pub messages_of-Perm :
      (rs ss : List (Row M)) → Perm rs ss → Perm (messages_of rs) (messages_of ss)
  messages_of-Perm rs ss p =
      subst (λ (x : List M). Perm x (messages_of ss)) (messages_of-map rs)
        (subst (λ (x : List M). Perm (map (λ r. r.message) rs) x) (messages_of-map ss)
          (Perm.map (λ (r : Row M). r.message) p))

  pub select-All :
      (p : Row M → Bool) (rows : List (Row M)) → All IsStamped rows → All IsStamped (select p rows)
  unfolding select
  select-All p [] h = tt
  select-All p (r ∷ rows) h = elim (Bool-cases (p r)) [
    | inl e ↦ rw (e) (h.0, select-All p rows h.1)
    | inr e ↦ rw (e) (select-All p rows h.1)
  ]

  pub messages_of-Bounded :
      (rows : List (Row M)) → All IsStamped rows → All (λ n. stamp n < 2 ^ 63) (messages_of rows)
  unfolding messages_of
  messages_of-Bounded [] h = tt
  messages_of-Bounded (r ∷ rows) h = (omega (arith, h.0.0, h.0.1), messages_of-Bounded rows h.1)

  pub oldest_of-bound :
      (m : M) (ms : List M) → All (λ n. stamp n < 2 ^ 63) (m ∷ ms) → oldest_of stamp m ms < 2 ^ 63
  unfolding oldest_of
  oldest_of-bound m [] h = h.0
  oldest_of-bound m (n ∷ ms) h = oldest_of-bound n ms h.1

  pub admitted :
      (end : ℕ) (ms : List M)
      → All (λ n. stamp n ≤ end) ms
      → All (λ n. at_most (some (at end)) (stamp n) ≡ true) ms
  admitted end [] h = tt
  admitted end (m ∷ ms) h = (ground (arith, h.0), admitted end ms h.1)
