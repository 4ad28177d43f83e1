-- ===== src/Connector/Ids/Senders.antt =====
-- Whose events count as the login's own.
use whatsapp_matrix_bridge.Common.{◌≡◌, ◌≢◌, ◌↔◌, true, [], beq_iff, Bytes-discrete, arith}
use whatsapp_matrix_bridge.Waid.Jid.{default_user, Jid, JidLib}
use whatsapp_matrix_bridge.Waid.Id.{make_user_login_id}
use whatsapp_matrix_bridge.Connector.Ids.{Login, make_event_sender}

-- An event counts as the login's own exactly where its sender is on the default server and has the
-- user part of the login's ID, if that is not empty.
pub make_event_sender-is_from_me :
    (lib : JidLib) (login : Login) (j : Jid)
    → login.id ≢ []
    → ((make_event_sender lib login j).is_from_me ≡ true)
      ↔ ((j.server ≡ default_user) × (j.user ≡ login.id))
unfolding make_event_sender make_user_login_id
make_event_sender-is_from_me lib login j h =
    ground (arith, h, beq_iff Bytes-discrete j.user login.id, beq_iff Bytes-discrete [] login.id)
