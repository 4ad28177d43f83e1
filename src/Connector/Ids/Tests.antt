-- ===== src/Connector/Ids/Tests.antt =====
-- The theorem on senders at a concrete login.
use whatsapp_matrix_bridge.Common.{false}
use whatsapp_matrix_bridge.Common.Text.{codes}
use whatsapp_matrix_bridge.Waid.Jid.Plain.{alice}
use whatsapp_matrix_bridge.Connector.Ids.{Login}

abbrev login : Login
login = record { id = codes "15550001"; jid = alice; split_portals = false }
