-- ===== src/Connector/MediaRequest.antt =====
-- pkg/connector/mediarequest.go: asking the phone to upload media again.
pub mod Keyed
pub mod Asked
pub mod Tests
use whatsapp_matrix_bridge.Common.{
  Bool, true, false, ◌&&◌, not, Option, none, some, List, [], ◌∷◌, ◌++◌, if◌then◌else◌, Bytes, beq,
  Bytes-discrete,
}
use whatsapp_matrix_bridge.Common.Text.{codes}
use whatsapp_matrix_bridge.Common.Result.{ok, err}
use whatsapp_matrix_bridge.Waid.Jid.{Jid, is_default_user, JidLib}
use whatsapp_matrix_bridge.Waid.Id.{Error, ParsedMessageId, parse_message_id}
use whatsapp_matrix_bridge.Connector.Ids.{PortalKey, Login}
use whatsapp_matrix_bridge.Wadb.MediaRequest.{
  MediaRequest, not_requested, requested, request_failed, request_skipped,
}
use whatsapp_matrix_bridge.Wadb.MediaRequest

-- `waid.MessageErrorType`
pub data MessageError : Type 0 where
  no_error decryption_failed media_not_found : MessageError

-- What `GetPartByID` answers: an error of the database, nil, or the error in the message's metadata.
pub data Lookup : Type 0 where
  db_failed missing : Lookup
  found : MessageError → Lookup

-- The `types.MessageInfo` of a media retry receipt.
pub record RetryInfo : Type 0 where
  pub id : Bytes
  pub is_from_me : Bool
  pub is_group : Bool
  pub sender : Jid
  pub chat : Jid

-- What the program asks of others: the message table of the bridge, whatsmeow's
-- `SendMediaRetryReceipt` (`none` where it succeeds, else the text of its error), and the texts of
-- errors.
pub record Outside : Type 0 where
  pub get_part_by_id : Bytes → Lookup
  pub send_media_retry_receipt : RetryInfo → Bytes → Option Bytes
  pub error_text : Error → Bytes

-- `HistorySync.MediaRequests` of the configuration.
pub record RequestConfig : Type 0 where
  pub auto_request_media : Bool
  pub is_immediate : Bool

module _ (lib : JidLib) (login : Login) (out : Outside) where
  unfoldable pub send_media_request_direct : Bytes → Bytes → Option Bytes
  send_media_request_direct raw_id key = elim (parse_message_id lib raw_id) [
    | err e ↦ some (codes "failed to parse message ID: " ++ out.error_text e)
    | ok id ↦
        out.send_media_retry_receipt
          (record {
            id = id.id;
            is_from_me = beq Bytes-discrete id.sender.user login.jid.user;
            is_group = not (is_default_user id.chat.server);
            sender = id.sender;
            chat = id.chat;
          })
          key
  ]

  ask_phone : MediaRequest → MediaRequest
  ask_phone req = elim (send_media_request_direct req.message_id req.media_key) [
    | some text ↦ record req { status = request_failed; error = text }
    | none ↦ record req { status = requested }
  ]

  -- The request as `sendMediaRequest` leaves it.
  unfoldable pub updated_request : MediaRequest → MediaRequest
  unfolding ask_phone
  updated_request req = elim (out.get_part_by_id req.message_id) [
    | db_failed ↦ record req { status = request_skipped }
    | missing ↦ record req { status = request_skipped }
    | found media_not_found ↦ ask_phone req
    | found e ↦ record req { status = request_skipped }
  ]

  -- `sendMediaRequest`: the deferred `Put` saves the request on every path. The flag tells whether
  -- the database refuses it.
  unfoldable pub send_media_request :
      Bytes → Bool → MediaRequest → List MediaRequest → List MediaRequest
  send_media_request bridge refused req rows =
      if refused then rows else MediaRequest.put bridge (updated_request req) rows

  unfoldable pub send_each : Bytes → List MediaRequest → List MediaRequest → List MediaRequest
  send_each bridge [] rows = rows
  send_each bridge (req ∷ reqs) rows =
      send_each bridge reqs (send_media_request bridge false req rows)

  -- `sendMediaRequests`, with a database that takes every write.
  unfoldable pub send_media_requests : Bytes → List MediaRequest → List MediaRequest
  send_media_requests bridge rows =
      send_each bridge (MediaRequest.get_unrequested bridge login.id rows) rows

  -- `processFailedMedia`, on the key of the failed media if the converted message has one: the
  -- table after it, and the request that it returns.
  unfoldable pub process_failed_media :
      RequestConfig
      → Bytes
      → PortalKey
      → Bytes
      → Option Bytes
      → Bool
      → List MediaRequest
      → List MediaRequest × Option MediaRequest
  process_failed_media config bridge portal id none is_backfill rows = (rows, none)
  process_failed_media config bridge portal id (some key) is_backfill rows =
      let req : MediaRequest = record {
        bridge_id = [];
        user_login_id = login.id;
        message_id = id;
        portal_key = portal;
        media_key = key;
        status = not_requested;
        error = [];
      } in
      let saved = MediaRequest.put bridge req rows in
      if is_backfill
      then (rows, some req)
      else if config.auto_request_media && config.is_immediate
      then (send_media_request bridge false req saved, none)
      else (saved, none)
