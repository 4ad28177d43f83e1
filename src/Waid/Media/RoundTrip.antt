-- ===== src/Waid/Media/RoundTrip.antt =====
-- Media IDs: building one never panics, and reading one gives back what it was built from.
use whatsapp_matrix_bridge.Common.{
  ℕ, ◌<◌, ◌≡◌, refl, ◌≢◌, ◌↔◌, some, [], length, arith, Bytes, beq_iff, Bytes-discrete,
}
use whatsapp_matrix_bridge.Common.Result.{ok, returns, panics}
use whatsapp_matrix_bridge.Common.Decimal.{parse_uint}
use whatsapp_matrix_bridge.Waid.Jid.{default_user, Jid, account, JidLib}
use whatsapp_matrix_bridge.Waid.Id.{make_user_login_id, parse_user_login_id}
use whatsapp_matrix_bridge.Waid.Media.{
  compact_msg_id, parse_compact_msg_id, compact_jid, parse_compact_jid, write_block, make_media_id,
  parse_media_id,
}
use whatsapp_matrix_bridge.Waid.Media.Compact.{
  IsPackable, pack, compact_jid-pack, parse_compact_jid-pack, parse_compact_msg_id-compact_msg_id,
  read_compact-write_block,
}

login_device : (receiver : Bytes) → (parse_user_login_id receiver 0).device ≡ 0
unfolding parse_user_login_id
login_device receiver = ground arith

-- A login ID of the default server is the user of the JID that stands for it.
login_id : (receiver : Bytes) → make_user_login_id (parse_user_login_id receiver 0) ≡ receiver
unfolding make_user_login_id parse_user_login_id
login_id receiver = ground (arith, beq_iff Bytes-discrete receiver [])

module _ (lib : JidLib) where
  open lib use {to_non_ad, to_non_ad_lem}

  abbrev blocks : Jid → Jid → Bytes → Bytes → Bytes
  blocks chat sender id receiver = write_block (pack lib (account chat)) (
      write_block (pack lib (account sender)) (
        write_block (pack lib (parse_user_login_id receiver 0))
          (write_block (compact_msg_id id) [])))

  make_media_id-blocks :
      (chat sender : Jid) (id receiver : Bytes)
      → make_media_id lib chat sender id receiver ≡ returns (blocks chat sender id receiver)
  unfolding make_media_id
  make_media_id-blocks chat sender id receiver = rw (
    to_non_ad_lem chat,
    to_non_ad_lem sender,
    compact_jid-pack lib (account chat) refl,
    compact_jid-pack lib (account sender) refl,
    compact_jid-pack lib (parse_user_login_id receiver 0) (login_device receiver),
  )

  -- compactJID panics exactly on the JIDs of the default server that have a number for a user and
  -- a device other than 0.
  pub compact_jid_panics :
      (j : Jid)
      → (compact_jid lib j ≡ panics)
        ↔ ((j.server ≡ default_user) × (j.device ≢ 0) × ((n : ℕ) × (parse_uint j.user ≡ some n)))
  unfolding compact_jid
  compact_jid_panics j =
      ((λ e. (ground arith, ground arith, ground arith)), (λ (s, d, (n, e)). ground arith))

  -- Building a media ID never panics: it returns for every chat, sender, ID and receiver, whatever
  -- devices the JIDs have.
  pub make_media_id_returns :
      (chat sender : Jid) (id receiver : Bytes)
      → (b : Bytes) × (make_media_id lib chat sender id receiver ≡ returns b)
  make_media_id_returns chat sender id receiver =
      (blocks chat sender id receiver, make_media_id-blocks chat sender id receiver)

  -- What a media ID was built from is read back from it: the accounts of the chat and the sender,
  -- the message ID and the receiver, if the JIDs are packable and each block is shorter than 256
  -- bytes.
  pub parse_media_id-make_media_id :
      (chat sender : Jid) (id receiver b : Bytes)
      → IsPackable (account chat)
      → IsPackable (account sender)
      → IsPackable (parse_user_login_id receiver 0)
      → length (pack lib (account chat)) < 256
      → length (pack lib (account sender)) < 256
      → length (pack lib (parse_user_login_id receiver 0)) < 256
      → length (compact_msg_id id) < 256
      → make_media_id lib chat sender id receiver ≡ returns b
      → parse_media_id lib b
        ≡ ok (record { chat = account chat; sender = account sender; id = id }, receiver)
  unfolding parse_media_id
  parse_media_id-make_media_id chat sender id receiver b pc ps pr lc ls lr li e =
      let read = parse_compact_jid lib in
      let built : blocks chat sender id receiver ≡ b =
        cc (make_media_id-blocks chat sender id receiver) in
      rw (
        ← built,
        read_compact-write_block read (pack lib (account chat)) _ lc
            (parse_compact_jid-pack lib (account chat) pc),
        read_compact-write_block read (pack lib (account sender)) _ ls
            (parse_compact_jid-pack lib (account sender) ps),
        read_compact-write_block read (pack lib (parse_user_login_id receiver 0)) _ lr
            (parse_compact_jid-pack lib (parse_user_login_id receiver 0) pr),
        read_compact-write_block parse_compact_msg_id (compact_msg_id id) [] li
            (parse_compact_msg_id-compact_msg_id id),
        login_id receiver,
      )
