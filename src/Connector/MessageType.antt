-- ===== src/Connector/MessageType.antt =====
-- pkg/connector/wamsgtype.go: the kind of a WhatsApp message.
pub mod Content
pub mod Tests
use whatsapp_matrix_bridge.Common.{
  ℕ, Bool, true, false, ◌||◌, Option, none, some, List, [], ◌∷◌, ◌++◌, if◌then◌else◌, Bytes, beq,
  Bytes-discrete,
}

-- The fields of `waE2E.Message` that the program tests.
pub data Field : Type 0 where
  conversation extended_text image sticker video ptv audio document contact contacts_array : Field
  location live_location group_invite group_mentioned scheduled_call_creation : Field
  scheduled_call_edit reaction enc_reaction poll_creation poll_creation_v2 poll_creation_v3 : Field
  poll_creation_v4 poll_creation_v5 poll_update protocol buttons buttons_response template : Field
  highly_structured template_button_reply interactive list product list_response order : Field
  invoice bot_invoke event event_cover_image enc_event_response comment enc_comment : Field
  newsletter_admin_invite secret_encrypted poll_result_snapshot message_history_bundle : Field
  request_phone_number keep_in_chat status_mention sticker_pack album send_payment : Field
  request_payment decline_payment_request cancel_payment_request payment_invite call chat : Field
  placeholder sender_key_distribution sticker_sync_rmr : Field

-- `waE2E.ProtocolMessage_Type`: the constants that the program names, or the number of another.
pub data ProtocolType : Type 0 where
  revoke message_edit ephemeral_setting app_state_sync_key_share : ProtocolType
  history_sync_notification initial_security_notification_setting_sync : ProtocolType
  other : ℕ → ProtocolType

-- A message: which fields are not nil, the MIME type of each media field, the text of the
-- reaction, and the type of the protocol message and whether it has a key.
pub record Message : Type 0 where
  pub present : Field → Bool
  pub mimetype : Field → Bytes
  pub reaction_text : Bytes
  pub protocol_type : ProtocolType
  pub protocol_has_key : Bool

-- The strings that `getMessageType` returns: a name, a media kind with its MIME type, or
-- `unknown_protocol_` with a number.
pub data MessageType : Type 0 where
  ignore text reaction reaction_remove edit revoke disappearing_timer_change unknown : MessageType
  media : Field → Bytes → MessageType
  plain : Field → MessageType
  poll_create poll_create_next payment : MessageType
  unknown_protocol : ℕ → MessageType

get_reaction_type : Message → MessageType
get_reaction_type m =
    if beq Bytes-discrete m.reaction_text [] then reaction_remove else MessageType.reaction

protocol_message_type : ProtocolType → Bool → MessageType
protocol_message_type ProtocolType.revoke has_key = if has_key then MessageType.revoke else ignore
protocol_message_type message_edit has_key = edit
protocol_message_type ephemeral_setting has_key = disappearing_timer_change
protocol_message_type app_state_sync_key_share has_key = ignore
protocol_message_type history_sync_notification has_key = ignore
protocol_message_type initial_security_notification_setting_sync has_key = ignore
protocol_message_type (other n) has_key = unknown_protocol n

-- A `case` of the switch: it is taken if one of the fields is present.
pub record Case : Type 0 where
  pub fields : List Field
  pub result : Message → MessageType

abbrev is_media : Field → Case
is_media f = record { fields = f ∷ []; result = λ m. media f (m.mimetype f) }

abbrev is_plain : Field → Case
is_plain f = record { fields = f ∷ []; result = λ m. plain f }

-- The cases in front of that of the protocol message.
unfoldable pub content_cases : List Case
unfolding get_reaction_type
content_cases =
    record { fields = conversation ∷ extended_text ∷ []; result = λ m. text }
    ∷ is_media image
    ∷ is_media sticker
    ∷ is_media video
    ∷ is_media ptv
    ∷ is_media audio
    ∷ is_media document
    ∷ is_plain contact
    ∷ is_plain contacts_array
    ∷ is_plain location
    ∷ is_plain live_location
    ∷ is_plain group_invite
    ∷ is_plain group_mentioned
    ∷ is_plain scheduled_call_creation
    ∷ is_plain scheduled_call_edit
    ∷ record { fields = Field.reaction ∷ []; result = get_reaction_type }
    ∷ is_plain enc_reaction
    ∷ record {
      fields = poll_creation ∷ poll_creation_v2 ∷ poll_creation_v3 ∷ [];
      result = λ m. poll_create;
    }
    ∷ record { fields = poll_creation_v4 ∷ poll_creation_v5 ∷ []; result = λ m. poll_create_next }
    ∷ is_plain poll_update
    ∷ []

-- The case of the protocol message and those behind it.
unfoldable pub later_cases : List Case
unfolding protocol_message_type
later_cases =
    record {
      fields = protocol ∷ [];
      result = λ m. protocol_message_type m.protocol_type m.protocol_has_key;
    }
    ∷ is_plain buttons
    ∷ is_plain buttons_response
    ∷ is_plain template
    ∷ is_plain highly_structured
    ∷ is_plain template_button_reply
    ∷ is_plain interactive
    ∷ is_plain list
    ∷ is_plain product
    ∷ is_plain list_response
    ∷ is_plain order
    ∷ is_plain invoice
    ∷ is_plain bot_invoke
    ∷ is_plain event
    ∷ is_plain event_cover_image
    ∷ record { fields = enc_event_response ∷ []; result = λ m. ignore }
    ∷ is_plain comment
    ∷ is_plain enc_comment
    ∷ is_plain newsletter_admin_invite
    ∷ is_plain secret_encrypted
    ∷ is_plain poll_result_snapshot
    ∷ is_plain message_history_bundle
    ∷ is_plain request_phone_number
    ∷ is_plain keep_in_chat
    ∷ is_plain status_mention
    ∷ is_plain sticker_pack
    ∷ is_plain album
    ∷ record {
      fields =
          send_payment ∷ request_payment ∷ decline_payment_request ∷ cancel_payment_request
          ∷ payment_invite ∷ [];
      result = λ m. payment;
    }
    ∷ is_plain call
    ∷ is_plain chat
    ∷ is_plain placeholder
    ∷ record { fields = sender_key_distribution ∷ sticker_sync_rmr ∷ []; result = λ m. ignore }
    ∷ []

unfoldable pub any_present : Message → List Field → Bool
any_present m [] = false
any_present m (f ∷ fs) = m.present f || any_present m fs

unfoldable pub first_case : List Case → Message → MessageType
first_case [] m = unknown
first_case (c ∷ cs) m = if any_present m c.fields then c.result m else first_case cs m

unfoldable pub get_message_type : Option Message → MessageType
get_message_type none = ignore
get_message_type (some m) = first_case (content_cases ++ later_cases) m

-- `parsedMessageType == "ignore" || strings.HasPrefix(parsedMessageType, "unknown_protocol_")`
unfoldable pub is_ignored : MessageType → Bool
is_ignored ignore = true
is_ignored (unknown_protocol n) = true
is_ignored t = false
