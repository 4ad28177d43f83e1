-- ===== src/Waid/Id/Tests.antt =====
-- Runs of pkg/waid/id.go, and its theorems at concrete inputs.
use whatsapp_matrix_bridge.Common.{◌≡◌, refl}
use whatsapp_matrix_bridge.Common.Text.{codes, has_prefix}
use whatsapp_matrix_bridge.Common.Result.{ok}
use whatsapp_matrix_bridge.Waid.Jid.{default_user, Jid}
use whatsapp_matrix_bridge.Waid.Jid.Plain.{
  plain_jids, alice, friends, alice-IsPlain, friends-IsPlain,
}
use whatsapp_matrix_bridge.Waid.Id.{make_message_id, parse_message_id}
use whatsapp_matrix_bridge.Waid.Id.RoundTrip.{parse_message_id-make_message_id}

abbrev phone : Jid
phone = record { user = codes "15550001"; server = default_user; device = 4 }

parse_message_id-make_message_id_example :
    parse_message_id plain_jids (make_message_id plain_jids friends phone (codes "3EB0:1"))
    ≡ ok (record { chat = friends; sender = alice; id = codes "3EB0:1" })
unfolding has_prefix
parse_message_id-make_message_id_example =
    parse_message_id-make_message_id plain_jids friends phone (codes "3EB0:1") friends-IsPlain
      alice-IsPlain refl
