-- ===== src/Waid/Id/RoundTrip.antt =====
-- The IDs of pkg/waid/id.go are read back to what they were made from.
use whatsapp_matrix_bridge.Common.{
  ◌≡◌, ◌≢◌, false, some, [], ◌∷◌, ◌++◌, arith, Bytes, beq_iff, Bytes-discrete, inl, inr, ◌⊎◌,
}
use whatsapp_matrix_bridge.Common.Text.{
  codes, Lacks, has_prefix, has_prefix-append, trim_prefix-append, cut-append,
}
use whatsapp_matrix_bridge.Common.Result.{ok, err}
use whatsapp_matrix_bridge.Waid.Jid.{default_user, hidden_user, Jid, IsPlain, JidLib, account}
use whatsapp_matrix_bridge.Waid.Id.{
  fake_message_id, make_user_id, parse_user_id, make_user_login_id, parse_user_login_id,
  make_message_id, make_fake_message_id, parse_message_id, lid_prefix, split_three, make_portal_id,
  parse_portal_id,
}

-- An account that a user ID can name: a phone number that does not begin with `lid-`, or a hidden
-- user.
abbrev pub IsUser : Jid → Type 0
IsUser j =
    ((j.server ≡ default_user) × (has_prefix lid_prefix j.user ≡ false)) ⊎ (j.server ≡ hidden_user)

-- A user ID is read back to the account (the JID without its device) that it was made from, for
-- every hidden user, and for every user of the default server whose user part does not begin with
-- `lid-`.
pub parse_user_id-make_user_id : (j : Jid) → IsUser j → parse_user_id (make_user_id j) ≡ account j
unfolding make_user_id parse_user_id
parse_user_id-make_user_id j (inl (e, h)) = ground arith
parse_user_id-make_user_id j (inr e) =
    ground (arith, has_prefix-append lid_prefix j.user, trim_prefix-append lid_prefix j.user)

-- A login ID, with the device ID that is stored beside it, is read back to the JID of the login,
-- if that is on the default server and has a user part.
pub parse_user_login_id-make_user_login_id :
    (j : Jid)
    → j.server ≡ default_user
    → j.user ≢ []
    → parse_user_login_id (make_user_login_id j) j.device ≡ j
unfolding make_user_login_id parse_user_login_id
parse_user_login_id-make_user_login_id j e h = ground (arith, beq_iff Bytes-discrete j.user [])

split_three-append :
    (a b c : Bytes)
    → Lacks b':' a
    → Lacks b':' b
    → split_three (a ++ (b':' ∷ (b ++ (b':' ∷ c)))) ≡ some (a, b, c)
unfolding split_three
split_three-append a b c ha hb =
    ground (arith, cut-append b':' a (b ++ (b':' ∷ c)) ha, cut-append b':' b c hb)

module _ (lib : JidLib) where
  open lib use {to_non_ad, string_of, to_non_ad_lem, parse_jid-string_of, string_of-Lacks}

  -- A portal ID is read back to the account that it was made from, if that is plain.
  pub parse_portal_id-make_portal_id :
      (j : Jid) → IsPlain (account j) → parse_portal_id lib (make_portal_id lib j) ≡ ok (account j)
  unfolding parse_portal_id make_portal_id
  parse_portal_id-make_portal_id j h =
      ground (arith, to_non_ad_lem j, parse_jid-string_of (account j) h)

  -- A message ID is read back to the accounts of the chat and the sender and to the same WhatsApp
  -- ID, colons included, if the accounts are plain and the ID does not begin with `FAKE::`.
  pub parse_message_id-make_message_id :
      (chat sender : Jid) (id : Bytes)
      → IsPlain (account chat)
      → IsPlain (account sender)
      → has_prefix (codes "FAKE::") id ≡ false
      → parse_message_id lib (make_message_id lib chat sender id)
        ≡ ok (record { chat = account chat; sender = account sender; id = id })
  unfolding parse_message_id make_message_id
  parse_message_id-make_message_id chat sender id hc hs hf = ground (
    arith,
    to_non_ad_lem chat,
    to_non_ad_lem sender,
    split_three-append (string_of (account chat)) (string_of (account sender)) id
        (string_of-Lacks (account chat) hc) (string_of-Lacks (account sender) hs),
    beq_iff Bytes-discrete (string_of (account chat)) (codes "fake"),
    lib.string_of-ne_fake (account chat) hc,
    parse_jid-string_of (account chat) hc,
    parse_jid-string_of (account sender) hs,
  )

  -- A fake message ID is never taken for a WhatsApp message, if the account of its chat is plain,
  -- whatever its sender and text.
  pub parse_message_id-make_fake_message_id :
      (chat sender : Jid) (text : Bytes)
      → IsPlain (account chat)
      → parse_message_id lib (make_fake_message_id lib chat sender text) ≡ err fake_message_id
  unfolding parse_message_id make_fake_message_id
  parse_message_id-make_fake_message_id chat sender text hc = ground (
    arith,
    to_non_ad_lem chat,
    split_three-append (codes "fake") (string_of (account chat))
        (string_of (to_non_ad sender) ++ (b':' ∷ text)) (omega arith)
        (string_of-Lacks (account chat) hc),
    beq_iff Bytes-discrete (codes "fake") (codes "fake"),
  )
