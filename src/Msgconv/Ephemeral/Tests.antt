-- ===== src/Msgconv/Ephemeral/Tests.antt =====
-- Two settings of the disappearing timer that come in the wrong order.
use whatsapp_matrix_bridge.Common.{◌≡◌, refl, some, List, [], ◌∷◌}
use whatsapp_matrix_bridge.Connector.ChatInfo.{off, after_read}
use whatsapp_matrix_bridge.Msgconv.Ephemeral.{
  Portal, Setting, is_newer, convert_ephemeral_setting_message,
}
use whatsapp_matrix_bridge.Msgconv.Ephemeral.Latest.{IsLatest, convert_all, convert_all-IsLatest}

abbrev portal : Portal
portal = record { disappear = off; set_at = 5 }

abbrev messages : List Setting
messages =
    record { expiration = some 86400; timestamp = some 20 }
    ∷ record { expiration = some 7; timestamp = some 10 }
    ∷ []

last : convert_all messages portal ≡ record { disappear = after_read 86400; set_at = 20 }
unfolding convert_all convert_ephemeral_setting_message is_newer
last = refl

convert_all-IsLatest_example : IsLatest portal messages (convert_all messages portal)
convert_all-IsLatest_example = convert_all-IsLatest messages portal ((20, refl), ((10, refl), tt))
