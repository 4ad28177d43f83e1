-- ===== src/Connector/Connection/Tests.antt =====
-- The theorems on the connection at concrete inputs. The phone was seen on day 1.
use whatsapp_matrix_bridge.Common.{◌*◌, ◌≡◌, ◌⊎◌, refl, true, false, none, some, [], ◌∷◌}
use whatsapp_matrix_bridge.Common.Clock.{day}
use whatsapp_matrix_bridge.Waid.Jid.Plain.{alice}
use whatsapp_matrix_bridge.Connector.Phone.{phone_recently_seen}
use whatsapp_matrix_bridge.Connector.Connection.{
  connected, no_error, transient_disconnect, phone_offline, disconnected_error, connected_again,
  offline_sync_completed, State, handle_all,
}
use whatsapp_matrix_bridge.Connector.Connection.Offline.{
  disconnections, phone_offline_stays, AnySoon, AllLate, disconnections_reported,
}

abbrev online : State
online = record {
  prev = record { event = connected; error = no_error };
  phone = record {
    phone_last_seen = some day;
    phone_last_pinged = none;
    last_phone_offline_warning = none;
  };
  has_client = true;
  jid = alice;
  wa_device_id = 4;
}

unseen : (phone_recently_seen true (20 * day) online.phone).0 ≡ false
unfolding phone_recently_seen
unseen = refl

phone_offline_stays_example :
    (handle_all
      ((20 * day, offline_sync_completed) ∷ disconnections (21 * day ∷ 22 * day ∷ []))
      online).prev
    ≡ record { event = transient_disconnect; error = phone_offline }
phone_offline_stays_example =
    phone_offline_stays (20 * day) (21 * day ∷ 22 * day ∷ []) online unseen

-- The phone was last seen on day 1: the second disconnection comes too late to be told.
disconnections_reported_example :
    (AnySoon day (2 * day ∷ 30 * day ∷ [])
      × ((handle_all
            ((day, connected_again) ∷ disconnections (2 * day ∷ 30 * day ∷ []))
            online).prev
          ≡ record { event = transient_disconnect; error = disconnected_error }))
    ⊎ (AllLate day (2 * day ∷ 30 * day ∷ [])
        × ((handle_all
              ((day, connected_again) ∷ disconnections (2 * day ∷ 30 * day ∷ []))
              online).prev
            ≡ record { event = connected; error = no_error }))
disconnections_reported_example =
    disconnections_reported day (2 * day ∷ 30 * day ∷ []) day online refl
