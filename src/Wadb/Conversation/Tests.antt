-- ===== src/Wadb/Conversation/Tests.antt =====
-- The theorems on conversations at concrete inputs.
use whatsapp_matrix_bridge.Common.{
  ◌≢◌, refl, ap, arith, List, Bool, true, false, Option, none, some, [], ◌∷◌,
}
use whatsapp_matrix_bridge.Common.Text.{codes}
use whatsapp_matrix_bridge.Common.Clock.{Instant}
use whatsapp_matrix_bridge.Waid.Jid.Plain.{alice, friends}
use whatsapp_matrix_bridge.Wadb.Message.{Chat}
use whatsapp_matrix_bridge.Wadb.Conversation.{Conversation, chat_of, get}
use whatsapp_matrix_bridge.Wadb.Conversation.History.{
  Operation, stored, marked, run, in_bridge, IsHistory, start, put_it, put_other, mark_it,
}
use whatsapp_matrix_bridge.Wadb.Conversation.Known.{IsKept, get-run}

abbrev chat : Chat
chat = record { bridge_id = codes "b"; login_id = codes "1"; jid = friends }

abbrev conversation : Instant → Option Bool → Conversation
conversation t archived = record {
  bridge_id = codes "b";
  user_login_id = codes "1";
  chat_jid = friends;
  last_message_timestamp = t;
  archived = archived;
  pinned = none;
  mute_end_time = none;
  end_of_history_transfer_type = none;
  ephemeral_expiration = none;
  ephemeral_setting_timestamp = none;
  marked_as_unread = none;
  unread_count = none;
  bridged = false;
}

abbrev old : Conversation
old = conversation (some 20) (some true)

abbrev new : Conversation
new = conversation (some 10) none

-- The newer one was put first, then one of another chat; and then the older one, after which the
-- chat was marked.
abbrev elsewhere : Conversation
elsewhere = record old { chat_jid = alice }

abbrev operations : List Operation
operations = marked chat ∷ stored new ∷ stored elsewhere ∷ stored old ∷ []

alice-ne : chat_of (in_bridge (codes "b") elsewhere) ≢ chat
alice-ne e = ground (arith, ap (λ (c : Chat). c.jid.server) e)

history : IsHistory (codes "b") chat operations (new ∷ old ∷ []) true
history =
    mark_it chat refl
      (put_it new refl refl (put_other elsewhere alice-ne (put_it old refl refl start)))

get-run_example : IsKept (new ∷ old ∷ []) true (get chat (run (codes "b") operations))
get-run_example = get-run history (
  ((λ z. ground (arith, z)), (λ z. ground (arith, z))),
  (((λ z. ground (arith, z)), (λ z. ground (arith, z))), tt),
)
