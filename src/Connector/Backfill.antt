-- ===== src/Connector/Backfill.antt =====
-- pkg/connector/backfill.go, `FetchMessages`: a page of stored messages for a portal, and the
-- callback that clears the table when the page was sent.
pub mod Cut
pub mod Rows
pub mod Paging
pub mod Loss
pub mod Tests
use whatsapp_matrix_bridge.Common.{
  ℕ, zero, suc, ◌+◌, ◌<◌, ◌≡◌, Bool, true, false, ◌&&◌, ◌||◌, not, Option, none, some, List, [],
  ◌∷◌, ◌++◌, ltb, ◌^◌, ◌==◌, length, if◌then◌else◌, Bytes, beq, Bytes-discrete,
}
use mathlib.Core.List.{reverse}
use whatsapp_matrix_bridge.Common.Decimal.{parse_uint, format_uint}
use whatsapp_matrix_bridge.Common.Result.{Result, ok, err, ◌>>=◌}
use whatsapp_matrix_bridge.Waid.Jid.{Jid, JidLib}
use whatsapp_matrix_bridge.Waid.Id.{Error, parse_portal_id}
use whatsapp_matrix_bridge.Wadb.Message.{
  chat_at, Row, Chat, UnixTime, at, before_epoch, Sorter, get_between, delete_between,
  delete_all_in_chat,
}
use whatsapp_matrix_bridge.Wadb.Conversation.{Conversation}
use whatsapp_matrix_bridge.Wadb.Conversation

pub data FetchError : Type 0 where
  bad_portal conversation_failed bad_cursor messages_failed parse_failed : FetchError

-- `bridgev2.FetchMessagesParams`; the anchor is the timestamp of the anchor message.
pub record Params : Type 0 where
  pub portal_id : Bytes
  pub forward : Bool
  pub anchor : Option ℕ
  pub cursor : Bytes
  pub count : ℕ

-- `strconv.ParseInt(s, 10, 64)`, as an instant: with a minus sign it lies before the epoch, or is 0.
unfoldable pub signed_time : Option ℕ → Option UnixTime
signed_time none = none
signed_time (some n) = if ltb n (2 ^ 63) then some (at n) else none

unfoldable pub negative_time : Option ℕ → Option UnixTime
negative_time none = none
negative_time (some zero) = some (at 0)
negative_time (some (suc n)) = if ltb n (2 ^ 63) then some before_epoch else none

unfoldable pub parse_cursor : Bytes → Option UnixTime
unfolding signed_time negative_time
parse_cursor [] = none
parse_cursor (c ∷ s) =
    if c == b'-'
    then negative_time (parse_uint s)
    else if c == b'+'
    then signed_time (parse_uint s)
    else signed_time (parse_uint (c ∷ s))

-- The bounds of a page, and whether the portal is to be marked as read.
pub record Range : Type 0 where
  pub start : Option ℕ
  pub end : Option UnixTime
  pub mark_read : Bool

-- `!ptr.Val(conv.MarkedAsUnread) && ptr.Val(conv.UnreadCount) == 0`
unfoldable pub is_read : Option Conversation → Bool
is_read none = false
is_read (some conv) =
    not (elim conv.marked_as_unread [ none ↦ false | some b ↦ b ])
    && elim conv.unread_count [ none ↦ true | some n ↦ n == 0 ]

unfoldable pub forward_range :
    Params → Result FetchError (Option Conversation) → Result FetchError Range
forward_range params conv = do
  c ← conv
  ok (record { start = params.anchor; end = none; mark_read = is_read c })

unfoldable pub backward_range : Params → Result FetchError Range
backward_range params = elim params.cursor [
  | [] ↦ ok (record { start = none; end = anchor_time; mark_read = false })
  | c ∷ s ↦ elim (parse_cursor params.cursor) [
    | none ↦ err bad_cursor
    | some t ↦ ok (record { start = none; end = some t; mark_read = false })
  ]
]
  where
    anchor_time : Option UnixTime
    anchor_time = elim params.anchor [ none ↦ none | some t ↦ some (at t) ]

-- The conversation is what `Conversation.Get` answers.
unfoldable pub range_of : Params → Result FetchError (Option Conversation) → Result FetchError Range
unfolding is_read forward_range backward_range
range_of params conv = if params.forward then forward_range params conv else backward_range params

module _ {M : Type 0} (stamp : M → ℕ) where
  -- `messages[len(messages)-1].GetMessageTimestamp()`
  unfoldable pub oldest_of : M → List M → ℕ
  oldest_of m [] = stamp m
  oldest_of m (n ∷ ms) = oldest_of n ms

  -- The loop that cuts off the messages with the oldest timestamp, from the end: the list up to
  -- the last message that is newer. `none` where no message is newer.
  unfoldable pub cut_oldest : ℕ → List M → Option (List M)
  cut_oldest oldest [] = none
  cut_oldest oldest (m ∷ ms) = elim (cut_oldest oldest ms) [
    | some kept ↦ some (m ∷ kept)
    | none ↦ if ltb oldest (stamp m) then some (m ∷ []) else none
  ]

  -- The messages of a page, and `hasMore`.
  unfoldable pub page : ℕ → M → List M → List M × Bool
  page count m ms =
      if ltb count (length (m ∷ ms))
      then (elim (cut_oldest (oldest_of m ms) (m ∷ ms)) [ none ↦ m ∷ ms | some kept ↦ kept ], true)
      else (m ∷ ms, false)

-- The messages of the rows, in their order.
unfoldable pub messages_of : {M : Type 0} → List (Row M) → List M
messages_of [] = []
messages_of (r ∷ rows) = r.message ∷ messages_of rows

unfoldable pub convert_all {ℓ κ} :
    {A : Type ℓ} {B : Type κ} → (A → Option B) → List A → Result FetchError (List B)
convert_all f [] = ok []
convert_all f (a ∷ rest) = elim (f a) [
  | none ↦ err parse_failed
  | some b ↦ elim (convert_all f rest) [ err e ↦ err e | ok bs ↦ ok (b ∷ bs) ]
]

-- `bridgev2.FetchMessagesResponse`, and the range that its `CompleteCallback` deletes: newest and
-- oldest timestamp. An empty response has neither.
pub record Response (B : Type 0) : Type 0 where
  pub messages : List B
  pub cursor : Bytes
  pub has_more : Bool
  pub forward : Bool
  pub mark_read : Bool
  pub deletes : Option (ℕ × ℕ)

-- `Backfill.Queue.Enabled` and `Backfill.WillPaginateManually`.
pub record BackfillConfig : Type 0 where
  pub queue_enabled : Bool
  pub will_paginate_manually : Bool

module _ {M B : Type 0} (stamp : M → ℕ) where
  -- `parse` is `ParseWebMessage` with the conversion of the message behind it.
  unfoldable pub respond : (M → Option B) → Params → Range → List M → Result FetchError (Response B)
  respond parse params range [] = ok (record {
    messages = [];
    cursor = [];
    has_more = false;
    forward = params.forward;
    mark_read = false;
    deletes = none;
  })
  respond parse params range (m ∷ ms) = do
    let (kept, more) = page stamp params.count m ms
    converted ← convert_all parse kept
    ok (record {
      messages = reverse converted;
      cursor = format_uint (oldest_of stamp m ms);
      has_more = more;
      forward = elim range.end [ none ↦ true | some t ↦ false ];
      mark_read = range.mark_read;
      deletes = some (stamp m, oldest_of stamp m ms);
    })

  module _ (sorter : Sorter M) (lib : JidLib) (bridge login : Bytes) where
    unfoldable pub answer :
        (Jid → M → Option B)
        → Params
        → Bool
        → Jid
        → Range
        → List (Row M)
        → Result FetchError (Response B)
    answer parse params messages_fail jid range rows =
        if messages_fail
        then err messages_failed
        else respond (parse jid) params range (
            messages_of (
              get_between sorter (chat_at bridge login jid) range.start range.end (params.count + 1)
                rows))

    -- The flags tell whether the database fails on the conversation and on the messages.
    unfoldable pub fetch_at :
        (Jid → M → Option B)
        → Params
        → Bool
        → Bool
        → List Conversation
        → List (Row M)
        → Result Error Jid
        → Result FetchError (Response B)
    fetch_at parse params conv_fails messages_fail convs rows (err e) = err bad_portal
    fetch_at parse params conv_fails messages_fail convs rows (ok jid) = do
      range ← range_of params (
          if conv_fails
          then err conversation_failed
          else ok (Conversation.get (chat_at bridge login jid) convs))
      answer parse params messages_fail jid range rows

    unfoldable pub fetch_messages :
        (Jid → M → Option B)
        → Params
        → Bool
        → Bool
        → List Conversation
        → List (Row M)
        → Result FetchError (Response B)
    fetch_messages parse params conv_fails messages_fail convs rows =
        fetch_at parse params conv_fails messages_fail convs rows
          (parse_portal_id lib params.portal_id)

-- `CompleteCallback`, on the table of messages.
unfoldable pub complete :
    {M B : Type 0} → BackfillConfig → Chat → Response B → List (Row M) → List (Row M)
complete config c response rows = elim response.deletes [
  | none ↦ rows
  | some (newest, oldest) ↦
      if not config.queue_enabled && not config.will_paginate_manually
      then delete_all_in_chat c rows
      else delete_between c newest oldest rows
]
