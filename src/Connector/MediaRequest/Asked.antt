-- ===== src/Connector/MediaRequest/Asked.antt =====
-- A round of `sendMediaRequests` leaves no request of the login unasked.
use whatsapp_matrix_bridge.Common.{◌≡◌, refl, ◌∙◌, sym, ap, false, List, [], ◌∷◌, arith, All, Bytes}
use whatsapp_matrix_bridge.Waid.Jid.{JidLib}
use whatsapp_matrix_bridge.Connector.Ids.{Login}
use whatsapp_matrix_bridge.Wadb.MediaRequest.{MediaRequest, put, is_unrequested, get_unrequested}
use whatsapp_matrix_bridge.Connector.MediaRequest.{
  Outside, updated_request, send_media_request, send_each, send_media_requests,
}
use whatsapp_matrix_bridge.Connector.MediaRequest.Keyed.{
  IsKeyed, without, upsert-IsKeyed, IsOfLogin, get_unrequested-upsert, get_unrequested-IsOfLogin,
  without_all, without_all-Covers, Covers-refl, without-same,
}

module _ (lib : JidLib) (login : Login) (out : Outside) where
  -- Whatever the message table and the phone answer, a request that was sent is no longer open.
  updated_request_lem :
      (r : MediaRequest)
      → (is_unrequested (updated_request lib login out r).status ≡ false)
        × ((updated_request lib login out r).bridge_id ≡ r.bridge_id)
        × ((updated_request lib login out r).user_login_id ≡ r.user_login_id)
        × ((updated_request lib login out r).message_id ≡ r.message_id)
  unfolding updated_request
  updated_request_lem r = ground arith

  -- Sending one open request of the login takes it, and no other, off the open ones.
  get_unrequested-send :
      (bridge : Bytes) (r : MediaRequest) (rows : List MediaRequest)
      → IsKeyed rows
      → r.bridge_id ≡ bridge
      → get_unrequested bridge login.id (send_media_request lib login out bridge false r rows)
        ≡ without r (get_unrequested bridge login.id rows)
  unfolding send_media_request put
  get_unrequested-send bridge r rows k e =
      let r' = updated_request lib login out r in
      let (asked, b, l, m) = updated_request_lem r in
      get_unrequested-upsert bridge login.id (record r' { bridge_id = bridge }) rows k asked
      ∙ without-same (record r' { bridge_id = bridge }) r (get_unrequested bridge login.id rows)
          (sym e) l m

  send-IsKeyed :
      (bridge : Bytes) (r : MediaRequest) (rows : List MediaRequest)
      → IsKeyed rows
      → IsKeyed (send_media_request lib login out bridge false r rows)
  unfolding send_media_request put
  send-IsKeyed bridge r rows k =
      upsert-IsKeyed (record (updated_request lib login out r) { bridge_id = bridge }) rows k

  get_unrequested-send_each :
      (bridge : Bytes) (reqs rows : List MediaRequest)
      → IsKeyed rows
      → All (IsOfLogin bridge login.id) reqs
      → get_unrequested bridge login.id (send_each lib login out bridge reqs rows)
        ≡ without_all reqs (get_unrequested bridge login.id rows)
  unfolding send_each without_all
  get_unrequested-send_each bridge [] rows k h = refl
  get_unrequested-send_each bridge (r ∷ reqs) rows k (h, hs) =
      get_unrequested-send_each bridge reqs (send_media_request lib login out bridge false r rows)
        (send-IsKeyed bridge r rows k) hs
      ∙ ap (without_all reqs) (get_unrequested-send bridge r rows k h.0)

  -- After a round of media requests, with every write taken and a table whose rows have different
  -- keys, no request of the login is left open: the next round finds nothing to send.
  pub send_media_requests_done :
      (bridge : Bytes) (rows : List MediaRequest)
      → IsKeyed rows
      → get_unrequested bridge login.id (send_media_requests lib login out bridge rows) ≡ []
  unfolding send_media_requests
  send_media_requests_done bridge rows k =
      let reqs = get_unrequested bridge login.id rows in
      get_unrequested-send_each bridge reqs rows k (get_unrequested-IsOfLogin bridge login.id rows)
      ∙ without_all-Covers reqs reqs (Covers-refl reqs)
