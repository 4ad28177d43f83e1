-- ===== src/Connector/MediaEditCache/Lookup.antt =====
-- Lookups in the cache, with expiry runs and additions between.
use whatsapp_matrix_bridge.Common.{
  ℕ, ◌+◌, ◌≤◌, ◌≡◌, ◌≢◌, refl, false, ◌&&◌, not, Bool-cases, inl, inr, none, some, List, [], ◌∷◌,
  All, ltb, if◌then◌else◌, beq, beq_refl, beq_iff, arith, ap, ◌∙◌,
}
use whatsapp_matrix_bridge.Connector.MediaEditCache.{
  Part, Key, Key-discrete, Cache, edit_max_age, margin, part_at, add_media_edit_cache,
  get_media_edit_cache, expire_media_edit_cache,
}

module _ {P : Type 0} where
  -- The expiry loop, at each of some times.
  unfoldable pub expire_all : List ℕ → Cache P → Cache P
  expire_all [] cache = cache
  expire_all (t ∷ ts) cache = expire_all ts (expire_media_edit_cache t cache)

  get-expire :
      (t now : ℕ) (key : Key) (cache : Cache P)
      → t ≤ now
      → get_media_edit_cache now key (expire_media_edit_cache t cache)
        ≡ get_media_edit_cache now key cache
  unfolding get_media_edit_cache part_at expire_media_edit_cache
  get-expire t now key cache h = ground (arith, h)

  -- However often the expiry loop ran, at times up to now, a lookup finds what it would have found
  -- without.
  pub get_media_edit_cache-expire_all :
      (ts : List ℕ) (now : ℕ) (key : Key) (cache : Cache P)
      → All (λ t. t ≤ now) ts
      → get_media_edit_cache now key (expire_all ts cache) ≡ get_media_edit_cache now key cache
  unfolding expire_all
  get_media_edit_cache-expire_all [] now key cache h = refl
  get_media_edit_cache-expire_all (t ∷ ts) now key cache h =
      get_media_edit_cache-expire_all ts now key (expire_media_edit_cache t cache) h.1
      ∙ get-expire t now key cache h.0

  add-same :
      (added : ℕ) (key : Key) (part : Part P) (cache : Cache P)
      → not part.is_sticker && not part.is_media ≡ false
      → add_media_edit_cache added key part cache key
        ≡ some (record { part = part; expiry = added + (edit_max_age + margin) })
  unfolding add_media_edit_cache
  add-same added key part cache h = rw (h, beq_refl Key-discrete key)

  add-other :
      (added : ℕ) (key other : Key) (part : Part P) (cache : Cache P)
      → beq Key-discrete other key ≡ false
      → add_media_edit_cache added key part cache other ≡ cache other
  unfolding add_media_edit_cache
  add-other added key other part cache h = ground (arith, h)

  -- A sticker or a media message that was added is found under its key up to 20 minutes later, and
  -- not after; under every other key a lookup finds what it found.
  pub get_media_edit_cache-add :
      (added now : ℕ) (key other : Key) (part : Part P) (cache : Cache P)
      → not part.is_sticker && not part.is_media ≡ false
      → other ≢ key
      → (get_media_edit_cache now key (add_media_edit_cache added key part cache)
          ≡ (if ltb (added + 1200) now then none else some part))
        × (get_media_edit_cache now other (add_media_edit_cache added key part cache)
            ≡ get_media_edit_cache now other cache)
  unfolding get_media_edit_cache part_at
  get_media_edit_cache-add added now key other part cache h ne =
      let apart : beq Key-discrete other key ≡ false =
        elim (Bool-cases (beq Key-discrete other key)) [
          | inl same ↦ absurd (ne ((beq_iff Key-discrete other key).0 same))
          | inr e ↦ e
        ] in
      (
        ap (part_at now) (add-same added key part cache h),
        ap (part_at now) (add-other added key other part cache apart),
      )
