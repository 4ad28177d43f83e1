-- ===== src/Wadb/PollOption.antt =====
-- pkg/connector/wadb/polloption.go: the options of polls that were made on Matrix. The ID of an
-- option is Matrix's, and its hash is WhatsApp's.
pub mod Stored
pub mod Found
pub mod Tests
use whatsapp_matrix_bridge.Common.{
  ℕ, Bool, true, false, ◌&&◌, ◌||◌, not, Option, none, some, List, [], ◌∷◌, ◌++◌, length, ◌==◌,
  if◌then◌else◌, Bytes, beq, Bytes-discrete,
}

-- A row of the table.
pub record PollOption : Type 0 where
  pub bridge_id : Bytes
  pub mxid : Bytes
  pub id : Bytes
  pub hash : Bytes

-- An entry of the map from hashes to IDs that is stored.
pub record Entry : Type 0 where
  pub hash : Bytes
  pub id : Bytes

unfoldable pub is_of : Bytes → Bytes → PollOption → Bool
is_of bridge mxid r = beq Bytes-discrete r.bridge_id bridge && beq Bytes-discrete r.mxid mxid

-- Whether a row breaks the primary key or the unique hash of the table.
unfoldable pub conflicts : PollOption → List PollOption → Bool
conflicts r [] = false
conflicts r (s ∷ rows) =
    is_of r.bridge_id r.mxid s && (beq Bytes-discrete s.id r.id || beq Bytes-discrete s.hash r.hash)
    || conflicts r rows

-- `GetMassInsertValues`, with the values that all rows share.
abbrev pub to_row : Bytes → Bytes → Entry → PollOption
to_row bridge mxid e = record { bridge_id = bridge; mxid = mxid; id = e.id; hash = e.hash }

-- One `INSERT` of all rows: it fails as a whole.
unfoldable pub insert_all : Bytes → Bytes → List Entry → List PollOption → Option (List PollOption)
insert_all bridge mxid [] rows = some rows
insert_all bridge mxid (e ∷ es) rows = elim (conflicts (to_row bridge mxid e) rows) [
  | true ↦ none
  | false ↦ insert_all bridge mxid es (rows ++ (to_row bridge mxid e ∷ []))
]

-- `Put`: the entries in the order in which Go ranges over the map, and whether the database
-- refuses the query for any other reason. The rows, and whether it succeeds.
unfoldable pub put : Bytes → Bytes → Bool → List Entry → List PollOption → List PollOption × Bool
put bridge mxid refused [] rows = (rows, true)
put bridge mxid true (e ∷ es) rows = (rows, false)
put bridge mxid false (e ∷ es) rows = elim (insert_all bridge mxid (e ∷ es) rows) [
  | none ↦ (rows, false)
  | some after ↦ (after, true)
]

unfoldable pub is_among : Bytes → List Bytes → Bool
is_among b [] = false
is_among b (x ∷ xs) = beq Bytes-discrete x b || is_among b xs

-- `scanPollOption` refuses a hash that is not of 32 bytes.
unfoldable pub scan_poll_option : PollOption → Option Entry
scan_poll_option r =
    if not (length r.hash == 32) then none else some (record { hash = r.hash; id = r.id })

-- The rows that a query selects, scanned one after another; the first error is that of the query.
unfoldable pub scan_all : (PollOption → Bool) → List PollOption → Option (List Entry)
scan_all selects [] = some []
scan_all selects (r ∷ rows) =
    let rest = scan_all selects rows in
    if selects r
    then elim (scan_poll_option r) [
      | none ↦ none
      | some e ↦ elim rest [ none ↦ none | some es ↦ some (e ∷ es) ]
    ]
    else rest

-- `GetIDs` and `GetHashes`: the entries of the map that is returned.
unfoldable pub get_ids : Bytes → Bytes → List Bytes → List PollOption → Option (List Entry)
get_ids bridge mxid hashes = scan_all (λ r. is_of bridge mxid r && is_among r.hash hashes)

unfoldable pub get_hashes : Bytes → Bytes → List Bytes → List PollOption → Option (List Entry)
get_hashes bridge mxid ids = scan_all (λ r. is_of bridge mxid r && is_among r.id ids)

-- What the maps hold for a key.
unfoldable pub id_of : Bytes → List Entry → Option Bytes
id_of h [] = none
id_of h (e ∷ es) = let rest = id_of h es in if beq Bytes-discrete e.hash h then some e.id else rest

unfoldable pub hash_of : Bytes → List Entry → Option Bytes
hash_of i [] = none
hash_of i (e ∷ es) =
    let rest = hash_of i es in if beq Bytes-discrete e.id i then some e.hash else rest
