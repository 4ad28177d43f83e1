-- ===== src/Connector/Inbox/Receipts.antt =====
-- What a receipt of pkg/connector/handlewhatsapp.go names, against the messages as events.go queued
-- them.
use whatsapp_matrix_bridge.Common.{
  ℕ, ◌≡◌, refl, ◌⊎◌, Bool, true, false, Option, none, some, List, [], ◌∷◌, map, Bytes, arith,
}
use mathlib.Core.Path.{subst}
use whatsapp_matrix_bridge.Waid.Jid.{JidLib, account}
use whatsapp_matrix_bridge.Waid.Id.{make_message_id}
use whatsapp_matrix_bridge.Connector.Ids.{
  PortalKey, EventSender, Login, make_wa_portal_key, make_event_sender,
  get_portal_key_by_message_source,
}
use whatsapp_matrix_bridge.Connector.Phone
use whatsapp_matrix_bridge.Connector.Inbox.{
  Info, Receipt, ReceiptType, RemoteEvent, get_portal_key, get_id, receipt_message_sender, targets,
  queue_receipt, handle_wa_receipt,
}

-- What is queued for a receipt of each type.
pub IsQueued : ReceiptType → PortalKey → EventSender → List Bytes → ℕ → Option RemoteEvent → Type 0
IsQueued ReceiptType.read key sender ids ts o =
    o ≡ some (RemoteEvent.read_receipt key sender ids ts)
IsQueued ReceiptType.read_self key sender ids ts o =
    o ≡ some (RemoteEvent.read_receipt key sender ids ts)
IsQueued ReceiptType.delivered key sender ids ts o =
    o ≡ some (RemoteEvent.delivery_receipt key sender ids ts)
IsQueued ReceiptType.other key sender ids ts o = o ≡ none

module _ (lib : JidLib) (login : Login) where
  -- A message that a receipt is about, by one of its IDs: it is in the chat of the receipt, and it
  -- was sent from a device of the account that the receipt names as its sender, or of the login
  -- where the receipt names none.
  pub record IsAbout (evt : Receipt) (id : Bytes) (info : Info) : Type 0 where
    pub chat : info.source.chat ≡ evt.chat
    pub id_same : info.id ≡ id
    pub sender :
        ((lib.is_empty evt.message_sender ≡ true)
          × (account info.source.sender ≡ account login.jid))
        ⊎ ((lib.is_empty evt.message_sender ≡ false)
            × (account info.source.sender ≡ account evt.message_sender))
    pub not_broadcast : info.is_incoming_broadcast ≡ false

  -- The messages of a receipt, one for each ID.
  unfoldable pub AreAbout : Receipt → List Bytes → List Info → Type 0
  AreAbout evt [] [] = Unit
  AreAbout evt [] (info ∷ infos) = ⊥
  AreAbout evt (id ∷ ids) [] = ⊥
  AreAbout evt (id ∷ ids) (info ∷ infos) = IsAbout evt id info × AreAbout evt ids infos

  make_message_id-get_id :
      (evt : Receipt) (id : Bytes) (info : Info)
      → IsAbout evt id info
      → make_message_id lib evt.chat (receipt_message_sender lib login evt) id
        ≡ get_id lib login info
  unfolding make_message_id get_id receipt_message_sender
  make_message_id-get_id evt id info h = ground (
    arith,
    h.chat,
    h.id_same,
    h.sender,
    lib.to_non_ad_lem info.source.sender,
    lib.to_non_ad_lem login.jid,
    lib.to_non_ad_lem evt.message_sender,
  )

  targets-get_id :
      (evt : Receipt) (ids : List Bytes) (infos : List Info)
      → AreAbout evt ids infos
      → map (λ id. make_message_id lib evt.chat (receipt_message_sender lib login evt) id) ids
        ≡ map (get_id lib login) infos
  unfolding AreAbout
  targets-get_id evt [] [] h = refl
  targets-get_id evt [] (info ∷ infos) h = absurd h
  targets-get_id evt (id ∷ ids) [] h = absurd h
  targets-get_id evt (id ∷ ids) (info ∷ infos) (one, more) =
      ground (arith, make_message_id-get_id evt id info one, targets-get_id evt ids infos more)

  get_portal_key-chat :
      (evt : Receipt) (id : Bytes) (info : Info)
      → IsAbout evt id info
      → get_portal_key lib login info ≡ make_wa_portal_key lib login evt.chat
  unfolding get_portal_key get_portal_key_by_message_source
  get_portal_key-chat evt id info h = ground (arith, h.chat, h.not_broadcast)

  pub InPortal : PortalKey → List Info → Type 0
  InPortal key [] = Unit
  InPortal key (info ∷ infos) = (get_portal_key lib login info ≡ key) × InPortal key infos

  AreAbout-InPortal :
      (evt : Receipt) (ids : List Bytes) (infos : List Info)
      → AreAbout evt ids infos
      → InPortal (make_wa_portal_key lib login evt.chat) infos
  unfolding AreAbout InPortal
  AreAbout-InPortal evt [] [] h = tt
  AreAbout-InPortal evt [] (info ∷ infos) h = absurd h
  AreAbout-InPortal evt (id ∷ ids) [] h = absurd h
  AreAbout-InPortal evt (id ∷ ids) (info ∷ infos) (one, more) =
      (get_portal_key-chat evt id info one, AreAbout-InPortal evt ids infos more)

  queue_receipt-IsQueued :
      (evt : Receipt) (type : ReceiptType)
      → evt.type ≡ type
      → IsQueued type
          (make_wa_portal_key lib login evt.chat)
          (make_event_sender lib login evt.sender)
          (targets lib login evt)
          evt.timestamp
          (queue_receipt lib login evt)
  unfolding queue_receipt IsQueued
  queue_receipt-IsQueued evt ReceiptType.read e = ground (arith, e)
  queue_receipt-IsQueued evt ReceiptType.read_self e = ground (arith, e)
  queue_receipt-IsQueued evt ReceiptType.delivered e = ground (arith, e)
  queue_receipt-IsQueued evt ReceiptType.other e = ground (arith, e)

  -- A receipt names its messages as they were bridged. Whatever messages are in its chat, have its
  -- IDs in their order, and were sent from devices of the account that it names as their sender,
  -- or of the login where it names none, handleWAReceipt queues it in the portal in which these
  -- messages are, with exactly their IDs as targets, in order: as a read receipt where it is one,
  -- of the login's other devices or not, as a delivery receipt where it is one, and for other
  -- types it queues nothing. The messages are not incoming broadcasts.
  pub handle_wa_receipt-get_id :
      (was_offline is_connected : Bool) (now : ℕ) (evt : Receipt) (phone : Phone.State)
      (infos : List Info)
      → AreAbout evt evt.message_ids infos
      → (key : PortalKey) × InPortal key infos
        × IsQueued evt.type key
            (make_event_sender lib login evt.sender)
            (map (get_id lib login) infos)
            evt.timestamp
            (handle_wa_receipt lib login was_offline is_connected now evt phone).1
  unfolding handle_wa_receipt targets
  handle_wa_receipt-get_id was_offline is_connected now evt phone infos h = (
    make_wa_portal_key lib login evt.chat,
    AreAbout-InPortal evt evt.message_ids infos h,
    subst
        (λ (ids : List Bytes).
          IsQueued evt.type (make_wa_portal_key lib login evt.chat)
            (make_event_sender lib login evt.sender) ids evt.timestamp
            (queue_receipt lib login evt))
        (targets-get_id evt evt.message_ids infos h) (queue_receipt-IsQueued evt evt.type refl),
  )
