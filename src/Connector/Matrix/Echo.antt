-- ===== src/Connector/Matrix/Echo.antt =====
-- Messages and reactions that come from Matrix, as they are seen on WhatsApp.
use whatsapp_matrix_bridge.Common.{ℕ, ◌≡◌, sym, Bool, false, Option, some, Bytes, arith}
use mathlib.Core.Path.{subst}
use whatsapp_matrix_bridge.Common.Text.{codes, has_prefix}
use whatsapp_matrix_bridge.Common.Result.{ok}
use whatsapp_matrix_bridge.Waid.Jid.{Jid, JidLib, account, IsPlain}
use whatsapp_matrix_bridge.Waid.Id.{
  ParsedMessageId, make_message_id, message_id_string, parse_portal_id, parse_message_id,
}
use whatsapp_matrix_bridge.Waid.Id.RoundTrip.{parse_message_id-make_message_id}
use whatsapp_matrix_bridge.Connector.Ids.{Login, message_id_to_key}
use whatsapp_matrix_bridge.Connector.Inbox.{Info, get_id}
use whatsapp_matrix_bridge.Connector.Matrix.{
  DbMessage, Reaction, handle_converted_matrix_message, handle_matrix_reaction,
}
use whatsapp_matrix_bridge.Msgconv.Keys.{key_to_message_id}
use whatsapp_matrix_bridge.Msgconv.Keys.RoundTrip.{IsOf, key_to_message_id-message_id_to_key}

-- The message as WhatsApp sends it back: in the chat of the portal, from a device of the login,
-- under the ID that it was sent with.
pub record IsEcho (lib : JidLib) (login : Login) (portal_id message_id : Bytes) (info : Info)
    : Type 0 where
  pub chat : parse_portal_id lib portal_id ≡ ok info.source.chat
  pub sender : account info.source.sender ≡ account login.jid
  pub id : info.id ≡ message_id

make_message_id-account :
    (lib : JidLib) (chat s t : Jid) (id : Bytes)
    → account s ≡ account t
    → make_message_id lib chat s id ≡ make_message_id lib chat t id
unfolding make_message_id
make_message_id-account lib chat s t id e =
    ground (arith, e, lib.to_non_ad_lem s, lib.to_non_ad_lem t)

-- A message that handleConvertedMatrixMessage sends is recognised when it comes back: if the event
-- has the chat of the portal, a sender that is a device of the login, and the ID that the message
-- was sent with, then GetID of the event is the ID under which the message is stored and the one
-- that was registered as pending.
pub handle_converted_matrix_message-IsEcho :
    (lib : JidLib) (login : Login) (disabled : Bool) (message_id : Bytes) (answer : Option ℕ)
    (portal_id : Bytes) (sent : DbMessage) (info : Info)
    → (handle_converted_matrix_message lib login disabled message_id answer portal_id).1 ≡ ok sent
    → IsEcho lib login portal_id message_id info
    → (get_id lib login info ≡ sent.id)
      × ((handle_converted_matrix_message lib login disabled message_id answer portal_id).0
          ≡ some sent.id)
unfolding handle_converted_matrix_message get_id
handle_converted_matrix_message-IsEcho lib login disabled message_id answer portal_id sent info h
      echo =
    ground (
      arith,
      h,
      echo.chat,
      echo.id,
      make_message_id-account lib info.source.chat info.source.sender login.jid info.id echo.sender,
    )

account-IsPlain : (j : Jid) → IsPlain j → account j ≡ j
account-IsPlain j plain = ground (arith, plain.no_device)

parse_message_id-message_id_string :
    (lib : JidLib) (p : ParsedMessageId)
    → IsPlain p.chat
    → IsPlain p.sender
    → has_prefix (codes "FAKE::") p.id ≡ false
    → parse_message_id lib (message_id_string lib p) ≡ ok p
unfolding message_id_string
parse_message_id-message_id_string lib p hc hs real = ground (
  arith,
  account-IsPlain p.chat hc,
  account-IsPlain p.sender hs,
  parse_message_id-make_message_id lib p.chat p.sender p.id
      (subst IsPlain (sym (account-IsPlain p.chat hc)) hc)
      (subst IsPlain (sym (account-IsPlain p.sender hs)) hs) real,
)

-- A reaction from Matrix to a message names that message: if the portal parses, chat and sender of
-- the message are plain, its ID does not begin with `FAKE::`, the chat is not on the Messenger
-- server, a sender with the user part of the login is its own account, and any other sender in a
-- direct chat is the other side, then HandleMatrixReaction sends a reaction whose key
-- KeyToMessageID reads back, for the login itself, to the ID that the reaction was given.
pub handle_matrix_reaction-key_to_message_id :
    (lib : JidLib) (legacy : Bytes) (login : Login) (own : Jid) (p : ParsedMessageId)
    (portal_id emoji : Bytes) (timestamp : ℕ) (chat : Jid)
    → IsOf lib legacy login own p
    → has_prefix (codes "FAKE::") p.id ≡ false
    → parse_portal_id lib portal_id ≡ ok chat
    → (r : Reaction) × (handle_matrix_reaction lib login
          (message_id_string lib p)
          portal_id
          emoji
          timestamp
        ≡ ok r)
      × (key_to_message_id lib legacy (account own) p.chat own r.key ≡ message_id_string lib p)
unfolding handle_matrix_reaction
handle_matrix_reaction-key_to_message_id lib legacy login own p portal_id emoji timestamp chat h
      real e =
    (
      record {
        chat = chat;
        key = message_id_to_key lib login p;
        text = emoji;
        sender_timestamp_ms = timestamp;
      },
      ground (arith, e, parse_message_id-message_id_string lib p h.chat_plain h.sender_plain real),
      key_to_message_id-message_id_to_key lib legacy login own p h,
    )
