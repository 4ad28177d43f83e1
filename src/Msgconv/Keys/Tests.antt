-- ===== src/Msgconv/Keys/Tests.antt =====
-- A key in a group, made by the login and read by it.
use whatsapp_matrix_bridge.Common.{◌≡◌, refl, false}
use whatsapp_matrix_bridge.Common.Text.{codes}
use whatsapp_matrix_bridge.Waid.Jid.{Jid, account, default_user}
use whatsapp_matrix_bridge.Waid.Jid.Plain.{
  plain_jids, alice, friends, alice-IsPlain, friends-IsPlain,
}
use whatsapp_matrix_bridge.Waid.Id.{ParsedMessageId, message_id_string}
use whatsapp_matrix_bridge.Connector.Ids.{Login, message_id_to_key}
use whatsapp_matrix_bridge.Msgconv.Keys.{key_to_message_id}
use whatsapp_matrix_bridge.Msgconv.Keys.RoundTrip.{IsOf, key_to_message_id-message_id_to_key}

-- The login's device, which is not the sender of the message.
abbrev pub own : Jid
own = record { user = codes "15550002"; server = default_user; device = 7 }

abbrev pub login : Login
login = record { id = codes "15550002"; jid = own; split_portals = false }

abbrev pub parsed : ParsedMessageId
parsed = record { chat = friends; sender = alice; id = codes "3EB0" }

pub parsed-IsOf : IsOf plain_jids (codes "c.us") login own parsed
parsed-IsOf = record {
  own_id = refl;
  chat_plain = friends-IsPlain;
  sender_plain = alice-IsPlain;
  own_account = λ e. cc;
  direct = λ n e. cc;
  no_messenger = λ e. cc;
}

key_to_message_id-message_id_to_key_example :
    key_to_message_id plain_jids
      (codes "c.us")
      (account own)
      friends
      own
      (message_id_to_key plain_jids login parsed)
    ≡ message_id_string plain_jids parsed
key_to_message_id-message_id_to_key_example =
    key_to_message_id-message_id_to_key plain_jids (codes "c.us") login own parsed parsed-IsOf
