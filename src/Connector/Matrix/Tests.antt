-- ===== src/Connector/Matrix/Tests.antt =====
-- What comes from Matrix, at concrete inputs: a message to a group that comes back, a reaction in
-- it, and a read receipt over a message of its.
use whatsapp_matrix_bridge.Common.{
  ◌≡◌, refl, ℕ, true, false, Option, none, some, List, [], ◌∷◌, Bytes, beq, Bytes-discrete,
  ℕ_discrete,
}
use whatsapp_matrix_bridge.Common.Text.{codes, cut, has_prefix}
use whatsapp_matrix_bridge.Common.Result.{ok}
use whatsapp_matrix_bridge.Waid.Jid.{account, default_user, Jid-discrete, Server-discrete}
use whatsapp_matrix_bridge.Waid.Jid.Plain.{
  plain_jids, alice, friends, print, read, read_server, friends-IsPlain,
}
use whatsapp_matrix_bridge.Waid.Id.{
  make_user_id, make_message_id, make_portal_id, message_id_string, parse_message_id,
  parse_portal_id, split_three, parse_parts,
}
use whatsapp_matrix_bridge.Waid.Id.RoundTrip.{parse_portal_id-make_portal_id}
use whatsapp_matrix_bridge.Connector.Inbox.{Info, get_id}
use whatsapp_matrix_bridge.Msgconv.Keys.{key_to_message_id}
use whatsapp_matrix_bridge.Msgconv.Keys.Tests.{own, login, parsed, parsed-IsOf}
use whatsapp_matrix_bridge.Connector.Matrix.{
  DbMessage, Reaction, Stored, Groups, handle_converted_matrix_message, handle_matrix_reaction,
  handle_matrix_read_receipt, last_read_of, is_after, query_answer, group_messages, add_message,
  append_to, read_key,
}
use whatsapp_matrix_bridge.Connector.Matrix.Echo.{
  handle_converted_matrix_message-IsEcho, handle_matrix_reaction-key_to_message_id,
}
use whatsapp_matrix_bridge.Connector.Matrix.Reads.{IsMarked, handle_matrix_read_receipt-IsMarked}

abbrev portal_id : Bytes
portal_id = make_portal_id plain_jids friends

abbrev wrapped : Bytes
wrapped = make_message_id plain_jids friends own (codes "3EB0")

abbrev sent : DbMessage
sent = record { id = wrapped; sender_id = make_user_id own; timestamp = 60; sender_device_id = 7 }

-- The message as another device of the login sees it.
abbrev info : Info
info = record {
  source = record {
    chat = friends;
    sender = record { user = codes "15550002"; server = default_user; device = 3 };
    is_from_me = true;
    is_group = true;
    broadcast_list_owner = account own;
  };
  is_incoming_broadcast = false;
  id = codes "3EB0";
  timestamp = 60;
}

run_message :
    (handle_converted_matrix_message plain_jids login true (codes "3EB0") (some 60) portal_id).1
    ≡ ok sent
unfolding handle_converted_matrix_message make_portal_id parse_portal_id plain_jids print read
    read_server cut beq Jid-discrete Server-discrete Bytes-discrete ℕ_discrete
run_message = refl

handle_converted_matrix_message-IsEcho_example :
    (get_id plain_jids login info ≡ wrapped)
    × ((handle_converted_matrix_message plain_jids login true (codes "3EB0") (some 60) portal_id).0
        ≡ some wrapped)
handle_converted_matrix_message-IsEcho_example =
    handle_converted_matrix_message-IsEcho plain_jids login true (codes "3EB0") (some 60) portal_id
      sent info run_message
      (record {
        chat = parse_portal_id-make_portal_id plain_jids friends friends-IsPlain;
        sender = refl;
        id = refl;
      })

handle_matrix_reaction-key_to_message_id_example :
    (r : Reaction) × (handle_matrix_reaction plain_jids login
        (message_id_string plain_jids parsed)
        portal_id
        (codes "+")
        70
      ≡ ok r)
    × (key_to_message_id plain_jids (codes "c.us") (account own) friends own r.key
        ≡ message_id_string plain_jids parsed)
unfolding has_prefix
handle_matrix_reaction-key_to_message_id_example =
    handle_matrix_reaction-key_to_message_id plain_jids (codes "c.us") login own parsed portal_id
      (codes "+") 70 friends parsed-IsOf refl
      (parse_portal_id-make_portal_id plain_jids friends friends-IsPlain)

abbrev between : ℕ → ℕ → Option (List Stored)
between since read_up_to = some (
    record { id = message_id_string plain_jids parsed; sender_id = codes "15550001" }
    ∷ record { id = wrapped; sender_id = login.id }
    ∷ [])

abbrev marked : Groups
marked = (alice, codes "3EB0" ∷ []) ∷ []

run_receipt :
    handle_matrix_read_receipt plain_jids login between portal_id 60 none
    ≡ ok (some (friends, marked))
unfolding handle_matrix_read_receipt last_read_of is_after query_answer group_messages add_message
    append_to read_key message_id_string make_message_id parse_message_id split_three parse_parts
    has_prefix make_portal_id parse_portal_id plain_jids print read read_server cut beq Jid-discrete
    Server-discrete Bytes-discrete ℕ_discrete
run_receipt = refl

handle_matrix_read_receipt-IsMarked_example :
    IsMarked plain_jids login between portal_id 60 none friends marked
handle_matrix_read_receipt-IsMarked_example =
    handle_matrix_read_receipt-IsMarked plain_jids login between portal_id 60 none friends marked
      run_receipt
