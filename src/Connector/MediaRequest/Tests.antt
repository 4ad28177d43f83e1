-- ===== src/Connector/MediaRequest/Tests.antt =====
-- A round of media requests, at a concrete table.
use whatsapp_matrix_bridge.Common.{◌≡◌, refl, false, none, [], ◌∷◌}
use whatsapp_matrix_bridge.Common.Text.{codes}
use whatsapp_matrix_bridge.Waid.Jid.Plain.{plain_jids, alice}
use whatsapp_matrix_bridge.Connector.Ids.{Login}
use whatsapp_matrix_bridge.Wadb.MediaRequest.{MediaRequest, not_requested, get_unrequested}
use whatsapp_matrix_bridge.Connector.MediaRequest.{
  Outside, found, media_not_found, send_media_requests,
}
use whatsapp_matrix_bridge.Connector.MediaRequest.Keyed.{has_key}
use whatsapp_matrix_bridge.Connector.MediaRequest.Asked.{send_media_requests_done}

abbrev phone : Outside
phone = record {
  get_part_by_id = λ id. found media_not_found;
  send_media_retry_receipt = λ info key. none;
  error_text = λ e. [];
}

abbrev login : Login
login = record { id = codes "1"; jid = alice; split_portals = false }

abbrev request : MediaRequest
request = record {
  bridge_id = codes "b";
  user_login_id = codes "1";
  message_id = codes "120363@g.us:15550001@s.whatsapp.net:A";
  portal_key = record { id = codes "120363@g.us"; receiver = [] };
  media_key = codes "k";
  status = not_requested;
  error = [];
}

send_media_requests_done_example :
    get_unrequested
      (codes "b")
      login.id
      (send_media_requests plain_jids login phone (codes "b") (request ∷ []))
    ≡ []
unfolding has_key
send_media_requests_done_example =
    send_media_requests_done plain_jids login phone (codes "b") (request ∷ []) (refl, tt)
