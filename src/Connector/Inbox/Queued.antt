-- ===== src/Connector/Inbox/Queued.antt =====
-- What the queued events have in common.
use whatsapp_matrix_bridge.Common.{
  ℕ, ◌≡◌, Bool, true, false, inl, inr, ◌⊎◌, Option, none, some, ◌++◌, Bytes, beq, beq_iff, arith,
}
use whatsapp_matrix_bridge.Common.Text.{codes}
use whatsapp_matrix_bridge.Common.Result.{err}
use whatsapp_matrix_bridge.Waid.Jid.{Jid, JidLib, Jid-discrete, IsPlain, account, is_hidden_user}
use whatsapp_matrix_bridge.Waid.Id.{fake_message_id, parse_message_id, make_fake_message_id}
use whatsapp_matrix_bridge.Waid.Id.RoundTrip.{parse_message_id-make_fake_message_id}
use whatsapp_matrix_bridge.Connector.Ids.{PortalKey, EventSender, Login, MessageSource}
use whatsapp_matrix_bridge.Connector.MessageType.{Message, MessageType}
use whatsapp_matrix_bridge.Connector.Inbox.{
  Info, Config, call_start, identity_change, status_broadcast_jid, is_dropped, handle_wa_message,
  handle_wa_undecryptable_message, handle_wa_call_start, handle_wa_identity_change,
}

is_dropped-hidden :
    (config : Config) (ms : MessageSource)
    → (is_hidden_user ms.chat.server ≡ true)
      ⊎ ((is_hidden_user ms.sender.server ≡ true)
          ⊎ ((ms.chat ≡ status_broadcast_jid) × (config.enable_status_broadcast ≡ false)))
    → is_dropped config ms ≡ true
unfolding is_dropped
is_dropped-hidden config ms (inl h) = ground (arith, h)
is_dropped-hidden config ms (inr (inl h)) = ground (arith, h)
is_dropped-hidden config ms (inr (inr (h, off))) =
    let same : beq Jid-discrete ms.chat status_broadcast_jid ≡ true =
      (beq_iff Jid-discrete ms.chat status_broadcast_jid).1 h in
    ground (arith, same, off)

-- Neither the handler of messages nor that of undecryptable messages queues one of a chat or a
-- sender that is a hidden user, or, where status broadcasts are off, one of the status broadcast.
pub handlers_hidden :
    (config : Config) (hide : Bool) (info : Info) (msg : Option Message)
    → (is_hidden_user info.source.chat.server ≡ true)
      ⊎ ((is_hidden_user info.source.sender.server ≡ true)
          ⊎ ((info.source.chat ≡ status_broadcast_jid) × (config.enable_status_broadcast ≡ false)))
    → (handle_wa_message config info msg ≡ none)
      × (handle_wa_undecryptable_message config hide info ≡ none)
unfolding handle_wa_message handle_wa_undecryptable_message
handlers_hidden config hide info msg h =
    let dropped : is_dropped config info.source ≡ true = is_dropped-hidden config info.source h in
    ground (arith, dropped)

module _ (lib : JidLib) (login : Login) where
  -- A notice of a call or of a new identity is never taken for a WhatsApp message: its ID is one
  -- that the parser refuses as fake, if the account that it is from is plain.
  pub notices_fake :
      (config : Config) (now : ℕ) (jid : Jid) (id : Bytes) (ts at : ℕ) (key : PortalKey)
      (sender : EventSender) (notice : Bytes)
      → IsPlain (account jid)
      → (handle_wa_call_start lib login config now jid id ts
          ≡ some (call_start key sender notice at))
        ⊎ (handle_wa_identity_change lib login config jid id ts
            ≡ some (identity_change key sender notice at))
      → parse_message_id lib notice ≡ err fake_message_id
  unfolding handle_wa_call_start handle_wa_identity_change
  notices_fake config now jid id ts at key sender notice hp (inl e) =
      let fake = parse_message_id-make_fake_message_id lib jid jid (codes "call-" ++ id) hp in
      let same : make_fake_message_id lib jid jid (codes "call-" ++ id) ≡ notice =
        ground (arith, e) in
      cc
  notices_fake config now jid id ts at key sender notice hp (inr e) =
      let fake = parse_message_id-make_fake_message_id lib jid jid (codes "idchange-" ++ id) hp in
      let same : make_fake_message_id lib jid jid (codes "idchange-" ++ id) ≡ notice =
        ground (arith, e) in
      cc
