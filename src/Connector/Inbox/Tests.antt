-- ===== src/Connector/Inbox/Tests.antt =====
-- The theorems on queued events at concrete inputs.
use whatsapp_matrix_bridge.Common.{
  ◌≡◌, refl, Bool, true, false, map, ap, inr, none, some, [], ◌∷◌, Bytes,
}
use whatsapp_matrix_bridge.Common.Text.{codes}
use whatsapp_matrix_bridge.Waid.Jid.{Jid, account, empty_jid}
use whatsapp_matrix_bridge.Waid.Jid.Plain.{plain_jids, alice, friends, is_empty_server}
use whatsapp_matrix_bridge.Waid.Id.{make_fake_message_id}
use whatsapp_matrix_bridge.Connector.Ids.{PortalKey, Login, make_wa_portal_key, make_event_sender}
use whatsapp_matrix_bridge.Connector.MessageType.{
  Field, conversation, Message, history_sync_notification,
}
use whatsapp_matrix_bridge.Connector.Inbox.{
  Info, Config, Receipt, delivered, call_start, get_id, handle_wa_receipt, handle_wa_call_start,
}
use whatsapp_matrix_bridge.Connector.Phone
use whatsapp_matrix_bridge.Connector.Inbox.Receipts.{
  IsAbout, AreAbout, InPortal, IsQueued, handle_wa_receipt-get_id,
}

abbrev config : Config
config = record {
  enable_status_broadcast = false;
  call_start_notices = true;
  identity_change_notices = true;
  archive_tag = [];
  pinned_tag = [];
}

abbrev login : Login
login = record { id = codes "15550001"; jid = alice; split_portals = false }

abbrev from : Jid → Info
from sender = record {
  source = record {
    chat = friends;
    sender = sender;
    is_from_me = false;
    is_group = true;
    broadcast_list_owner = empty_jid;
  };
  is_incoming_broadcast = false;
  id = codes "3EB0";
  timestamp = 10;
}

abbrev only_conversation : Field → Bool
only_conversation conversation = true
only_conversation f = false

abbrev greeting : Message
greeting = record {
  present = only_conversation;
  mimetype = λ f. [];
  reaction_text = [];
  protocol_type = history_sync_notification;
  protocol_has_key = false;
}

abbrev phone : Phone.State
phone = record {
  phone_last_seen = none;
  phone_last_pinged = none;
  last_phone_offline_warning = none;
}

abbrev receipt : Receipt
receipt = record {
  is_from_me = false;
  chat = friends;
  sender = alice;
  message_sender = alice;
  type = delivered;
  message_ids = codes "3EB0" ∷ codes "3EB1" ∷ [];
  timestamp = 20;
}

-- The two messages of the receipt.
abbrev first : Info
first = from alice

abbrev second : Info
second = record first { id = codes "3EB1" }

about :
    (info : Info)
    → Path Jid info.source.chat friends
    → Path Jid info.source.sender alice
    → info.is_incoming_broadcast ≡ false
    → IsAbout plain_jids login receipt info.id info
unfolding plain_jids is_empty_server
about info c s n = record {
  chat = c;
  id_same = refl;
  sender = inr (refl, ap account s);
  not_broadcast = n;
}

handle_wa_receipt-get_id_example :
    (key : PortalKey) × InPortal plain_jids login key (first ∷ second ∷ [])
    × IsQueued delivered key
        (make_event_sender plain_jids login alice)
        (map (get_id plain_jids login) (first ∷ second ∷ []))
        20
        (handle_wa_receipt plain_jids login false true 30 receipt phone).1
unfolding AreAbout
handle_wa_receipt-get_id_example =
    handle_wa_receipt-get_id plain_jids login false true 30 receipt phone (first ∷ second ∷ [])
      (about first refl refl refl, (about second refl refl refl, tt))

abbrev call_id : Bytes
call_id = make_fake_message_id plain_jids alice alice (codes "call-7")

called :
    handle_wa_call_start plain_jids login config 100 alice (codes "7") 90
    ≡ some (
        call_start
          (make_wa_portal_key plain_jids login alice)
          (make_event_sender plain_jids login alice)
          call_id
          90)
unfolding handle_wa_call_start
called = refl
