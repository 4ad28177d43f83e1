-- ===== src/Connector/MessageType/Tests.antt =====
-- Runs of `getMessageType`, and its theorem at a concrete input.
use whatsapp_matrix_bridge.Common.{◌≡◌, refl, Bool, true, false, some, []}
use whatsapp_matrix_bridge.Connector.MessageType.{
  Field, protocol, image, sender_key_distribution, Message, media, content_cases, later_cases,
  any_present, first_case, get_message_type, is_ignored, history_sync_notification,
}

-- A message with a history sync notification.
abbrev only_protocol : Field → Bool
only_protocol protocol = true
only_protocol f = false

abbrev notification : Message
notification = record {
  present = only_protocol;
  mimetype = λ f. [];
  reaction_text = [];
  protocol_type = history_sync_notification;
  protocol_has_key = false;
}

notification-is_ignored : is_ignored (get_message_type (some notification)) ≡ true
unfolding is_ignored get_message_type first_case content_cases later_cases any_present
notification-is_ignored = refl

-- Sender keys that come with an image do not hide it.
abbrev keyed_image : Field → Bool
keyed_image image = true
keyed_image sender_key_distribution = true
keyed_image f = false

image_with_keys :
    get_message_type (some (record notification { present = keyed_image })) ≡ media image []
unfolding get_message_type first_case content_cases later_cases any_present
image_with_keys = refl
