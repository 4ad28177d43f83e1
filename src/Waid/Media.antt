-- ===== src/Waid/Media.antt =====
-- pkg/waid/mediaid.go: message sources packed into the bytes of a media ID.
pub mod Hex
pub mod Words
pub mod Compact
pub mod RoundTrip
pub mod Tests
use whatsapp_matrix_bridge.Common.{
  ℕ, ◌%◌, Option, none, some, [], ◌∷◌, ◌++◌, length, take, drop, leb, ◌==◌, if◌then◌else◌, Bytes,
  ◌≡◌,
}
use whatsapp_matrix_bridge.Common.Result.{Result, ok, err, ◌>>=◌, Call, returns, panics}
use whatsapp_matrix_bridge.Common.Decimal.{parse_uint, format_uint}
use whatsapp_matrix_bridge.Waid.Jid.{default_user, group, Jid, empty_jid, JidLib}
use whatsapp_matrix_bridge.Waid.Id.{
  Error, eof, bad_jid, empty_jid_data, invalid_length, invalid_type, empty_message_id, or_fail,
  ParsedMessageId, make_user_login_id, parse_user_login_id,
}
use Hex.{is_upper_hex, decode, encode, upper, is_even}
use Words.{big_endian_64, read_64, read_16}

-- `jid.Device == 0` on a number is written; otherwise `data[1] = …` is reached with a slice of one
-- byte, an index out of range.
compact_user : ℕ → ℕ → Call Bytes
compact_user user_int device = if device == 0 then returns (1 ∷ big_endian_64 user_int) else panics

unfoldable pub compact_msg_id : Bytes → Bytes
compact_msg_id id =
    if is_upper_hex id
    then if is_even id then elim (decode id) [ none ↦ 0 ∷ id | some raw ↦ 1 ∷ raw ] else 0 ∷ id
    else 0 ∷ id

unfoldable pub parse_compact_msg_id : Bytes → Result Error Bytes
parse_compact_msg_id [] = err empty_message_id
parse_compact_msg_id (kind ∷ raw) =
    if kind == 0 then ok raw else if kind == 1 then ok (upper (encode raw)) else err invalid_type

-- `ReadByte` and `ReadFull`: the block behind its length byte, and what is left to read.
unfoldable pub read_block : Bytes → Result Error (Bytes × Bytes)
read_block [] = err eof
read_block (len ∷ rest) =
    if leb len (length rest) then ok (take len rest, drop len rest) else err eof

unfoldable pub read_compact {ℓ} :
    {A : Type ℓ} → (Bytes → Result Error A) → Bytes → Result Error (A × Bytes)
read_compact f s = do (block, rest) ← read_block s; a ← f block; ok (a, rest)

-- `append(mediaID, byte(len(data)))` and the data.
unfoldable pub write_block : Bytes → Bytes → Bytes
write_block block rest = (length block % 256) ∷ (block ++ rest)

module _ (lib : JidLib) where
  open lib use {to_non_ad, string_of, parse_jid}

  unfoldable pub compact_jid : Jid → Call Bytes
  unfolding compact_user
  compact_jid j = elim j.server [
    | default_user ↦ elim (parse_uint j.user) [
      | none ↦ returns (0 ∷ string_of j)
      | some n ↦ compact_user n j.device
    ]
    | group ↦ returns (3 ∷ j.user)
    | _ ↦ returns (0 ∷ string_of j)
  ]

  parse_user_block : Bytes → Result Error Jid
  parse_user_block raw =
      if length raw == 8
      then ok (record { user = format_uint (read_64 raw); server = default_user; device = 0 })
      else err invalid_length

  parse_device_block : Bytes → Result Error Jid
  parse_device_block raw =
      if length raw == 10
      then ok (record {
        user = format_uint (read_64 raw);
        server = default_user;
        device = read_16 (drop 8 raw);
      })
      else err invalid_length

  unfoldable pub parse_compact_jid : Bytes → Result Error Jid
  unfolding parse_user_block parse_device_block
  parse_compact_jid [] = err empty_jid_data
  parse_compact_jid (kind ∷ raw) =
      if kind == 0
      then or_fail (parse_jid raw) bad_jid
      else if kind == 1
      then parse_user_block raw
      else if kind == 2
      then parse_device_block raw
      else if kind == 3
      then ok (record { user = raw; server = group; device = 0 })
      else err invalid_type

  join_blocks : Call Bytes → Call Bytes → Call Bytes → Bytes → Call Bytes
  join_blocks (returns chat) (returns sender) (returns receiver) id =
      returns (write_block chat (write_block sender (write_block receiver (write_block id []))))
  join_blocks _ _ _ id = panics

  -- The chat, the sender and the ID of the message, and the login that received it.
  unfoldable pub make_media_id : Jid → Jid → Bytes → Bytes → Call Bytes
  unfolding join_blocks
  make_media_id chat sender id receiver =
      join_blocks (compact_jid (to_non_ad chat)) (compact_jid (to_non_ad sender))
        (compact_jid (parse_user_login_id receiver 0)) (compact_msg_id id)

  unfoldable pub parse_media_id : Bytes → Result Error (ParsedMessageId × Bytes)
  parse_media_id s = do
    (chat, after_chat) ← read_compact parse_compact_jid s
    (sender, after_sender) ← read_compact parse_compact_jid after_chat
    (receiver, after_receiver) ← read_compact parse_compact_jid after_sender
    (id, rest) ← read_compact parse_compact_msg_id after_receiver
    ok (record { chat = chat; sender = sender; id = id }, make_user_login_id receiver)
