-- ===== src/Waid/Id.antt =====
-- pkg/waid/id.go: portal, user, login and message IDs.
pub mod RoundTrip
pub mod Tests
use whatsapp_matrix_bridge.Common.{
  ℕ, ◌≡◌, Bool, true, false, ◌||◌, Option, none, some, [], ◌∷◌, ◌++◌, if◌then◌else◌, Bytes, beq,
  Bytes-discrete,
}
use whatsapp_matrix_bridge.Common.Text.{codes, has_prefix, trim_prefix, cut}
use whatsapp_matrix_bridge.Common.Result.{Result, ok, err, ◌>>=◌}
use whatsapp_matrix_bridge.Waid.Jid.{
  Server, default_user, hidden_user, Jid, empty_jid, new_jid, is_default_user, JidLib,
}

-- The errors of the package, without their texts. `bad_jid` is an error of `types.ParseJID`.
pub data Error : Type 0 where
  bad_jid fake_message_id invalid_message_id : Error
  eof empty_jid_data invalid_length invalid_type empty_message_id : Error

abbrev pub or_fail {ℓ} : {A : Type ℓ} → Option A → Error → Result Error A
or_fail none e = err e
or_fail (some a) e = ok a

abbrev pub lid_prefix : Bytes
lid_prefix = codes "lid-"

unfoldable pub make_user_id : Jid → Bytes
make_user_id j = elim j.server [
  | default_user ↦ j.user
  | hidden_user ↦ lid_prefix ++ j.user
  | _ ↦ []
]

unfoldable pub parse_user_id : Bytes → Jid
parse_user_id u =
    if has_prefix lid_prefix u
    then new_jid (trim_prefix lid_prefix u) hidden_user
    else new_jid u default_user

unfoldable pub make_user_login_id : Jid → Bytes
make_user_login_id j = if is_default_user j.server then j.user else []

unfoldable pub parse_user_login_id : Bytes → ℕ → Jid
parse_user_login_id u device_id =
    if beq Bytes-discrete u []
    then empty_jid
    else record { user = u; server = default_user; device = device_id }

pub record ParsedMessageId : Type 0 where
  pub chat : Jid
  pub sender : Jid
  pub id : Bytes

-- `strings.SplitN(s, ":", 3)` where it has three parts; `none` where it has fewer.
unfoldable pub split_three : Bytes → Option (Bytes × Bytes × Bytes)
split_three s = elim (cut b':' s) [
  | none ↦ none
  | some (a, rest) ↦ elim (cut b':' rest) [ none ↦ none | some (b, c) ↦ some (a, b, c) ]
]

module _ (lib : JidLib) where
  open lib use {to_non_ad, string_of, parse_jid}

  unfoldable pub make_portal_id : Jid → Bytes
  make_portal_id j = string_of (to_non_ad j)

  unfoldable pub parse_portal_id : Bytes → Result Error Jid
  parse_portal_id p = or_fail (parse_jid p) bad_jid

  unfoldable pub make_message_id : Jid → Jid → Bytes → Bytes
  make_message_id chat sender id =
      string_of (to_non_ad chat) ++ (b':' ∷ (string_of (to_non_ad sender) ++ (b':' ∷ id)))

  unfoldable pub make_fake_message_id : Jid → Jid → Bytes → Bytes
  make_fake_message_id chat sender text =
      codes "fake"
      ++ (b':'
          ∷ (string_of (to_non_ad chat)
              ++ (b':' ∷ (string_of (to_non_ad sender) ++ (b':' ∷ text)))))

  unfoldable pub message_id_string : ParsedMessageId → Bytes
  message_id_string p = make_message_id p.chat p.sender p.id

  unfoldable pub parse_parts : Bytes × Bytes × Bytes → Result Error ParsedMessageId
  parse_parts (first, second, third) =
      if beq Bytes-discrete first (codes "fake") || has_prefix (codes "FAKE::") third
      then err fake_message_id
      else do
        chat ← or_fail (parse_jid first) bad_jid
        sender ← or_fail (parse_jid second) bad_jid
        ok (record { chat = chat; sender = sender; id = third })

  unfoldable pub parse_message_id : Bytes → Result Error ParsedMessageId
  unfolding split_three parse_parts
  parse_message_id s = elim (split_three s) [
    | none ↦ err invalid_message_id
    | some parts ↦ parse_parts parts
  ]
