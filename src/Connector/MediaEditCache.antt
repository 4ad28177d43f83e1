-- ===== src/Connector/MediaEditCache.antt =====
-- pkg/connector/mediaeditcache.go: the media messages that can still be edited.
pub mod Lookup
pub mod Tests
use whatsapp_matrix_bridge.Common.{
  ℕ, ◌+◌, ◌*◌, Bool, true, false, ◌&&◌, ◌||◌, not, Option, none, some, ltb, if◌then◌else◌, Bytes,
  beq, Bytes-discrete,
}

-- `bridgev2.ConvertedMessagePart`: what `AddMediaEditCache` reads of it, and the rest.
pub record Part (P : Type 0) : Type 0 where
  pub is_sticker : Bool
  pub is_media : Bool
  pub content : P

pub record Key : Type 0 where
  pub message_id : Bytes
  pub portal_mxid : Bytes

pub record Value (P : Type 0) : Type 0 where
  pub part : Part P
  pub expiry : ℕ

unfoldable pub Key-discrete : Discrete Key
unfolding Bytes-discrete
Key-discrete = hlevel Bytes-discrete

-- `mediaEditCache`, a Go map.
abbrev pub Cache : Type 0 → Type 0
Cache P = Key → Option (Value P)

-- `EditMaxAge` of pkg/connector/capabilities.go, and the margin of the cache, in seconds.
abbrev pub edit_max_age : ℕ
edit_max_age = 900

abbrev pub margin : ℕ
margin = 300

-- `time.Until(expiry) < 0` at the time `now`.
abbrev pub is_expired : {P : Type 0} → ℕ → Value P → Bool
is_expired now v = ltb v.expiry now

module _ {P : Type 0} where
  unfoldable pub add_media_edit_cache : ℕ → Key → Part P → Cache P → Cache P
  add_media_edit_cache now key converted cache k =
      if not converted.is_sticker && not converted.is_media
      then cache k
      else if beq Key-discrete k key
      then some (record { part = converted; expiry = now + (edit_max_age + margin) })
      else cache k

  -- What is answered for an entry of the map.
  unfoldable pub part_at : ℕ → Option (Value P) → Option (Part P)
  part_at now none = none
  part_at now (some v) = if is_expired now v then none else some v.part

  unfoldable pub get_media_edit_cache : ℕ → Key → Cache P → Option (Part P)
  get_media_edit_cache now key cache = part_at now (cache key)

  unfoldable pub expire_media_edit_cache : ℕ → Cache P → Cache P
  expire_media_edit_cache now cache k = elim (cache k) [
    | none ↦ none
    | some v ↦ if is_expired now v then none else some v
  ]
