-- ===== src/Connector/MediaEditCache/Tests.antt =====
-- The theorems on the cache at concrete inputs.
use whatsapp_matrix_bridge.Common.{◌≡◌, true, false, none, [], ◌∷◌, Bytes, arith}
use whatsapp_matrix_bridge.Common.Text.{codes}
use whatsapp_matrix_bridge.Connector.MediaEditCache.{
  Part, Key, Cache, add_media_edit_cache, get_media_edit_cache,
}
use whatsapp_matrix_bridge.Connector.MediaEditCache.Lookup.{
  expire_all, get_media_edit_cache-expire_all,
}

abbrev empty : Cache Bytes
empty k = none

abbrev key : Key
key = record { message_id = codes "A"; portal_mxid = codes "!r" }

abbrev other : Key
other = record { message_id = codes "B"; portal_mxid = codes "!r" }

abbrev picture : Part Bytes
picture = record { is_sticker = false; is_media = true; content = codes "jpeg" }

abbrev cache : Cache Bytes
cache = add_media_edit_cache 100 key picture empty

get_media_edit_cache-expire_all_example :
    get_media_edit_cache 1000 key (expire_all (160 ∷ 220 ∷ []) cache)
    ≡ get_media_edit_cache 1000 key cache
get_media_edit_cache-expire_all_example =
    get_media_edit_cache-expire_all (160 ∷ 220 ∷ []) 1000 key cache (omega arith, (omega arith, tt))
