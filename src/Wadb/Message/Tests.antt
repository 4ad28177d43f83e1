-- ===== src/Wadb/Message/Tests.antt =====
-- Runs of `Put`, and its theorems at concrete inputs.
use whatsapp_matrix_bridge.Common.{◌≡◌, true, false, List, [], ◌∷◌, ◌++◌, ℕ, Bytes}
use whatsapp_matrix_bridge.Common.Text.{codes}
use whatsapp_matrix_bridge.Waid.Jid.Plain.{plain_jids, alice, friends}
use whatsapp_matrix_bridge.Wadb.Message.{Row, Tuple, Chat, put}
use whatsapp_matrix_bridge.Wadb.Message.Batches.{accepted, put_again, put_refused}

abbrev chat : Chat
chat = record { bridge_id = codes "b"; login_id = codes "1"; jid = friends }

abbrev tuple : Bytes → ℕ → Tuple Bytes
tuple id t = record { sender = alice; id = id; timestamp = t; message = codes "hi" }

-- Two chunks, the second with a message of the first once more.
abbrev chunks : List (List (Tuple Bytes))
chunks = (tuple (codes "A") 10 ∷ tuple (codes "B") 11 ∷ []) ∷ (tuple (codes "A") 10 ∷ []) ∷ []

abbrev stored : List (Row Bytes)
stored = (put plain_jids chat (accepted 5 chunks) []).0

put_again_example :
    put plain_jids chat (accepted 7 chunks) (put plain_jids chat (accepted 5 chunks) []).0
    ≡ ((put plain_jids chat (accepted 5 chunks) []).0, true)
put_again_example = put_again plain_jids chat 5 7 chunks []

put_refused_example :
    put plain_jids chat (accepted 5 chunks ++ (((tuple (codes "C") 12 ∷ []), 6, true) ∷ [])) stored
    ≡ (stored, false)
put_refused_example =
    put_refused plain_jids chat (accepted 5 chunks) [] (tuple (codes "C") 12 ∷ []) 6 stored
