-- ===== src/Waid/Media/Tests.antt =====
-- Runs of pkg/waid/mediaid.go, and its theorems at concrete inputs.
use whatsapp_matrix_bridge.Common.{
  ◌≡◌, refl, arith, [], ◌∷◌, ℕ_discrete, Bytes-discrete, beq, ◌<◌, length,
}
use whatsapp_matrix_bridge.Common.Text.{codes}
use whatsapp_matrix_bridge.Common.Decimal
use whatsapp_matrix_bridge.Common.Decimal.{parse_uint, format_uint}
use whatsapp_matrix_bridge.Common.Result.{ok}
use whatsapp_matrix_bridge.Waid.Jid.{default_user, Jid}
use whatsapp_matrix_bridge.Waid.Id.{parse_user_login_id}
use whatsapp_matrix_bridge.Waid.Jid.Plain.{plain_jids, alice, friends}
use whatsapp_matrix_bridge.Waid.Media.{compact_msg_id, parse_media_id}
use whatsapp_matrix_bridge.Waid.Media.Compact.{IsPackable, numbered, grouped, pack}
use whatsapp_matrix_bridge.Waid.Media.RoundTrip.{
  make_media_id_returns, parse_media_id-make_media_id,
}
use whatsapp_matrix_bridge.Waid.Media.Words
use whatsapp_matrix_bridge.Waid.Media.Hex

abbrev phone : Jid
phone = record { user = codes "15550001"; server = default_user; device = 4 }

compact_id : compact_msg_id (codes "3EB0") ≡ 1 ∷ 0x3e ∷ 0xb0 ∷ []
unfolding compact_msg_id Hex.is_upper_hex Hex.is_even Hex.decode Hex.digit_value
compact_id = refl

alice-IsPackable : IsPackable alice
unfolding format_uint Decimal.spell
alice-IsPackable = numbered 15550001 (omega arith) refl

login-IsPackable : IsPackable (parse_user_login_id (codes "15550001") 0)
unfolding format_uint Decimal.spell parse_user_login_id beq Bytes-discrete ℕ_discrete
login-IsPackable = numbered 15550001 (omega arith) refl

pack_short :
    (length (pack plain_jids alice) < 256)
    × (length (pack plain_jids friends) < 256)
    × (length (pack plain_jids (parse_user_login_id (codes "15550001") 0)) < 256)
    × (length (compact_msg_id (codes "3EB0")) < 256)
unfolding pack parse_uint Words.big_endian_64 Words.spell compact_msg_id Hex.is_upper_hex
    Hex.is_even Hex.decode Hex.digit_value parse_user_login_id beq Bytes-discrete ℕ_discrete
pack_short = omega arith

parse_media_id-make_media_id_example :
    let made = make_media_id_returns plain_jids friends phone (codes "3EB0") (codes "15550001") in
    parse_media_id plain_jids made.0
    ≡ ok (record { chat = friends; sender = alice; id = codes "3EB0" }, codes "15550001")
parse_media_id-make_media_id_example =
    let made = make_media_id_returns plain_jids friends phone (codes "3EB0") (codes "15550001") in
    parse_media_id-make_media_id plain_jids friends phone (codes "3EB0") (codes "15550001") made.0
      (grouped refl refl) alice-IsPackable login-IsPackable pack_short.1 pack_short.0 pack_short.2
      pack_short.3 made.1
