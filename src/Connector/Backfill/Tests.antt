-- ===== src/Connector/Backfill/Tests.antt =====
-- Pages of a concrete table, and the theorems on them. A message is its timestamp.
use whatsapp_matrix_bridge.Common.{
  ℕ, ◌≡◌, refl, true, false, Option, none, some, List, [], ◌∷◌, Bytes, arith, beq, Bytes-discrete,
  ℕ_discrete,
}
use whatsapp_matrix_bridge.Common.Text.{codes, cut}
use whatsapp_matrix_bridge.Common.Decimal.{format_uint, spell, parse_uint, scan}
use whatsapp_matrix_bridge.Common.Result.{ok}
use whatsapp_matrix_bridge.Waid.Jid.{Jid, Jid-discrete, Server-discrete}
use whatsapp_matrix_bridge.Waid.Jid.Plain.{
  print, read, read_server, is_empty_server, plain_jids, alice, friends, friends-IsPlain,
}
use whatsapp_matrix_bridge.Waid.Id.{make_portal_id, parse_portal_id}
use whatsapp_matrix_bridge.Waid.Id.RoundTrip.{parse_portal_id-make_portal_id}
use whatsapp_matrix_bridge.Wadb.Message.{
  chat_at, Row, select, is_between, is_in, is_of_login, get_between, delete_between,
}
use whatsapp_matrix_bridge.Wadb.Conversation
use whatsapp_matrix_bridge.Wadb.Message.Sorting.{by_insertion, sort, place}
use whatsapp_matrix_bridge.Connector.Backfill.{
  parse_cursor, signed_time, fetch_at, answer, page, convert_all, is_read, forward_range,
  backward_range, Params, Range, Response, BackfillConfig, range_of, messages_of, fetch_messages,
  oldest_of, cut_oldest, respond, complete,
}
use whatsapp_matrix_bridge.Connector.Backfill.Paging.{MissesNothing, fetch_messages_complete}
use whatsapp_matrix_bridge.Connector.Backfill.Loss.{Loses, respond_loss}

abbrev row : Bytes → ℕ → Row ℕ
row id t = record {
  bridge_id = codes "b";
  user_login_id = codes "1";
  chat_jid = friends;
  sender_jid = alice;
  message_id = id;
  timestamp = t;
  message = t;
  inserted_time = 0;
}

-- Two messages of one second, and a newer one.
abbrev table : List (Row ℕ)
table = row (codes "A") 10 ∷ row (codes "B") 10 ∷ row (codes "C") 20 ∷ []

abbrev params : Params
params = record {
  portal_id = make_portal_id plain_jids friends;
  forward = false;
  anchor = none;
  cursor = [];
  count = 1;
}

abbrev range : Range
range = record { start = none; end = none; mark_read = false }

abbrev response : Response ℕ
response = record {
  messages = 20 ∷ [];
  cursor = codes "10";
  has_more = true;
  forward = true;
  mark_read = false;
  deletes = some (20, 10);
}

abbrev as_is : Jid → ℕ → Option ℕ
as_is j m = some m

fetched :
    fetch_messages
      (λ m. m)
      by_insertion
      plain_jids
      (codes "b")
      (codes "1")
      as_is
      params
      false
      false
      []
      table
    ≡ ok response
unfolding fetch_messages fetch_at answer respond page oldest_of cut_oldest convert_all messages_of
    range_of is_read forward_range backward_range by_insertion sort place get_between select
    is_between is_in is_of_login beq Bytes-discrete Jid-discrete Server-discrete ℕ_discrete
    format_uint spell make_portal_id parse_portal_id plain_jids print read read_server cut
    is_empty_server
fetched = refl

range_found :
    range_of params (ok (Conversation.get (chat_at (codes "b") (codes "1") friends) [])) ≡ ok range
unfolding range_of backward_range
range_found = refl

fetch_messages_complete_example :
    MissesNothing
      (λ m. m)
      (as_is friends)
      (messages_of
        (select (is_between (chat_at (codes "b") (codes "1") friends) range.start range.end) table))
      response
fetch_messages_complete_example =
    fetch_messages_complete (λ m. m) by_insertion plain_jids (codes "b") (codes "1") as_is params []
      table friends range response
      ((refl, omega arith), ((refl, omega arith), ((refl, omega arith), tt)))
      (parse_portal_id-make_portal_id plain_jids friends friends-IsPlain) range_found fetched

abbrev config : BackfillConfig
config = record { queue_enabled = true; will_paginate_manually = false }

cut_found : cut_oldest (λ m. m) (oldest_of (λ m. m) 20 (10 ∷ [])) (20 ∷ 10 ∷ []) ≡ some (20 ∷ [])
unfolding cut_oldest oldest_of
cut_found = refl

responded : respond (λ m. m) (as_is friends) params range (20 ∷ 10 ∷ []) ≡ ok response
unfolding respond page cut_oldest oldest_of convert_all format_uint spell
responded = refl

respond_loss_example :
    Loses
      (λ m. m)
      (as_is friends)
      (20 ∷ [])
      (oldest_of (λ m. m) 20 (10 ∷ []))
      (chat_at (codes "b") (codes "1") friends)
      response
      (complete config (chat_at (codes "b") (codes "1") friends) response table)
respond_loss_example =
    respond_loss (λ m. m) (as_is friends) params range 20 (10 ∷ []) (20 ∷ []) response config
      (chat_at (codes "b") (codes "1") friends) table ((omega arith, tt), (tt, tt)) (omega arith)
      cut_found responded

-- The next page is empty: the two messages of the first second are gone.
next_page :
    fetch_messages
      (λ m. m)
      by_insertion
      plain_jids
      (codes "b")
      (codes "1")
      as_is
      (record params { cursor = codes "10" })
      false
      false
      []
      (complete config (chat_at (codes "b") (codes "1") friends) response table)
    ≡ ok (record {
      messages = [];
      cursor = [];
      has_more = false;
      forward = false;
      mark_read = false;
      deletes = none;
    })
unfolding complete delete_between fetch_messages fetch_at answer respond page oldest_of cut_oldest
    convert_all messages_of range_of is_read forward_range backward_range by_insertion sort place
    get_between select is_between is_in is_of_login beq Bytes-discrete Jid-discrete Server-discrete
    ℕ_discrete format_uint spell make_portal_id parse_portal_id plain_jids print read read_server
    cut is_empty_server parse_cursor signed_time parse_uint scan
next_page = refl
