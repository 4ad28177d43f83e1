-- ===== src/Msgconv/Polls/Votes.antt =====
-- That a vote goes from Matrix to WhatsApp and back.
use whatsapp_matrix_bridge.Common.{
  ◌≡◌, refl, ◌↔◌, Bool, true, Option, some, List, [], ◌∷◌, ◌++◌, map, length, All, All-append,
  arith, Bool-cases, Option-cases, inl, inr, Bytes,
}
use mathlib.Core.List.{map-append}
use whatsapp_matrix_bridge.Common.Result.{Result, ok, err, Result-cases}
use whatsapp_matrix_bridge.Wadb.PollOption.{PollOption, Entry, put, is_among, get_ids, get_hashes}
use whatsapp_matrix_bridge.Wadb.PollOption.Stored.{IsChecked, IsIn}
use whatsapp_matrix_bridge.Wadb.PollOption.Found.{IsFound, put-IsFound, put-IsChecked}
use whatsapp_matrix_bridge.Waid.Jid.{JidLib}
use whatsapp_matrix_bridge.Waid.Id.{ParsedMessageId, parse_message_id}
use whatsapp_matrix_bridge.Msgconv.Ephemeral.{Portal, generate_context_info}
use whatsapp_matrix_bridge.Msgconv.Polls.{
  Sha256, Msc1767, body_of, entry_of, add_options, Poll, mapped_hashes, mapped_answers, Error,
  bad_message_id, PollMessageInfo, poll_msg_info, option_hashes, poll_vote_to_whatsapp,
  selected_answers, poll_start_to_whatsapp, PollStart, PollCreation,
}
use whatsapp_matrix_bridge.Msgconv.Polls.Mapped.{
  hash_in, id_in, IsMapped, IsIn-is_among, mapped, get_ids-some, get_hashes-some, All-of, All-at,
}

IsLong : Entry → Type 0
IsLong e = length e.hash ≡ 32

module _ (sha : Sha256) (parse_html : Bytes → Bytes × List Bytes) where
  -- The names and the entries of the options go together.
  add_options-lem :
      (answers : List (Bytes × Msc1767)) (names : List Bytes) (entries : List Entry)
      (names' : List Bytes) (entries' : List Entry)
      → add_options sha parse_html answers names entries ≡ some (names', entries')
      → All IsLong entries
      → map hash_in entries ≡ map sha.sum names
      → All IsLong entries' × (map hash_in entries' ≡ map sha.sum names')
  unfolding add_options IsLong
  add_options-lem [] names entries names' entries' h long same = ground (arith, h, long, same)
  add_options-lem (a ∷ answers) names entries names' entries' h long same =
      elim (Bool-cases (is_among (entry_of sha parse_html a).hash (map hash_in entries))) [
        | inl y ↦ ground (arith, h, y)
        | inr n ↦
            add_options-lem answers (names ++ (body_of sha parse_html a ∷ []))
              (entries ++ (entry_of sha parse_html a ∷ [])) names' entries' (ground (arith, h, n))
              (All-append IsLong entries (entry_of sha parse_html a ∷ []) long
                (sha.length-sum (body_of sha parse_html a), tt))
              (ground (
                arith,
                same,
                map-append hash_in entries (entry_of sha parse_html a ∷ []),
                map-append sha.sum names (body_of sha parse_html a ∷ []),
              ))
      ]

  poll_start-lem :
      (lib : JidLib) (poll : PollStart) (reply_to : Option Bytes) (portal : Portal)
      (creation : PollCreation) (es : List Entry)
      → poll_start_to_whatsapp sha parse_html lib poll reply_to portal ≡ ok (creation, es)
      → All IsLong es × (map hash_in es ≡ map sha.sum creation.options)
  unfolding poll_start_to_whatsapp
  poll_start-lem lib poll reply_to portal creation es h =
      elim (Result-cases (generate_context_info lib reply_to portal)) [
        | inr (e, n) ↦ ground (arith, h, n)
        | inl (context, n) ↦ elim (Option-cases (add_options sha parse_html poll.answers [] [])) [
          | inl m ↦ ground (arith, h, n, m)
          | inr ((names, entries), m) ↦
              ground (arith, h, n, m, add_options-lem poll.answers [] [] names entries m tt refl)
        ]
      ]

-- The vote with these hashes, where the ID of the poll message parses.
pub vote_with {ℓ} :
    {E : Type ℓ}
    → Bytes
    → Result E ParsedMessageId
    → List Bytes
    → Result Error (PollMessageInfo × List Bytes)
vote_with user (err e) hashes = err bad_message_id
vote_with user (ok parsed) hashes = ok (poll_msg_info user parsed, hashes)

poll_vote_to_whatsapp-option_hashes :
    (bridge : Bytes) (rows : List PollOption) (lib : JidLib) (user id : Bytes) (poll : Poll)
    (answers hashes : List Bytes)
    → option_hashes bridge rows poll answers ≡ ok hashes
    → poll_vote_to_whatsapp bridge rows lib user id poll answers
      ≡ vote_with user (parse_message_id lib id) hashes
unfolding poll_vote_to_whatsapp vote_with
poll_vote_to_whatsapp-option_hashes bridge rows lib user id poll answers hashes h =
    elim (Result-cases (parse_message_id lib id)) [
      | inl (p, e) ↦ ground (arith, h, e)
      | inr (n, e) ↦ ground (arith, h, e)
    ]

-- The vote for some options, as its hashes and back.
pub record IsReturned (bridge : Bytes) (rows : List PollOption) (poll : Poll) (chosen : List Entry)
    : Type 0 where
  pub hashes : option_hashes bridge rows poll (map id_in chosen) ≡ ok (map hash_in chosen)
  pub sent :
      (lib : JidLib) (user id : Bytes)
      → poll_vote_to_whatsapp bridge rows lib user id poll (map id_in chosen)
        ≡ vote_with user (parse_message_id lib id) (map hash_in chosen)
  pub received : selected_answers bridge rows poll (map hash_in chosen) ≡ some (map id_in chosen)

module _ (bridge mxid : Bytes) (rows : List PollOption) (chosen : List Entry) where
  IsFoundHere : Entry → Type 0
  IsFoundHere e = IsFound bridge mxid e (map hash_in chosen) (map id_in chosen) rows × IsLong e

  found-IsMapped :
      (hashes ids : List Entry)
      → get_hashes bridge mxid (map id_in chosen) rows ≡ some hashes
      → get_ids bridge mxid (map hash_in chosen) rows ≡ some ids
      → (e : Entry) → IsIn e chosen
      → IsFoundHere e
      → IsMapped hashes ids e
  unfolding IsFoundHere IsMapped IsLong
  found-IsMapped hashes ids h i e among (found, long) =
      let (by_hash, by_id) = IsIn-is_among e chosen among in
      let (some_ids, answer, id) = found.by_hash by_hash in
      let (some_hashes, reply, hash) = found.by_id by_id in
      ground (arith, h, i, answer, id, reply, hash, long)

  mapped-IsReturned :
      (poll : Poll) (hashes ids : List Entry)
      → poll.is_matrix_poll ≡ true
      → poll.mxid ≡ mxid
      → get_hashes bridge mxid (map id_in chosen) rows ≡ some hashes
      → get_ids bridge mxid (map hash_in chosen) rows ≡ some ids
      → mapped_hashes hashes (map id_in chosen) ≡ map hash_in chosen
      → mapped_answers ids (map hash_in chosen) ≡ map id_in chosen
      → IsReturned bridge rows poll chosen
  unfolding option_hashes selected_answers
  mapped-IsReturned poll hashes ids on_matrix of h i sent received = record {
    hashes = ground (arith, on_matrix, of, h, sent);
    sent = λ lib user id.
        poll_vote_to_whatsapp-option_hashes bridge rows lib user id poll (map id_in chosen)
          (map hash_in chosen) (ground (arith, on_matrix, of, h, sent));
    received = ground (arith, on_matrix, of, i, received);
  }

  found-IsReturned :
      (poll : Poll)
      → poll.is_matrix_poll ≡ true
      → poll.mxid ≡ mxid
      → IsChecked rows
      → ((e : Entry) → IsIn e chosen → IsFoundHere e)
      → IsReturned bridge rows poll chosen
  found-IsReturned poll on_matrix of checked found =
      let (hashes, h) = get_hashes-some bridge mxid (map id_in chosen) rows checked in
      let (ids, i) = get_ids-some bridge mxid (map hash_in chosen) rows checked in
      let (sent, received) = mapped hashes ids chosen (
        All-of (IsMapped hashes ids) chosen
          (λ e among. found-IsMapped hashes ids h i e among (found e among))) in
      mapped-IsReturned poll hashes ids on_matrix of h i sent received

module _ (sha : Sha256) (parse_html : Bytes → Bytes × List Bytes) (lib : JidLib) where
  -- The poll as it was made and stored: `stored` has its options in any order.
  pub record IsMade (bridge : Bytes) (poll : PollStart) (reply_to : Option Bytes) (portal : Portal)
      (creation : PollCreation) (es stored : List Entry) (mxid : Bytes) (refused : Bool)
      (rows : List PollOption) : Type 0 where
    pub made : poll_start_to_whatsapp sha parse_html lib poll reply_to portal ≡ ok (creation, es)
    pub same : (e : Entry) → IsIn e es ↔ IsIn e stored
    pub checked : IsChecked rows
    pub done : (put bridge mxid refused stored rows).1 ≡ true

  -- A vote in a poll from Matrix comes back as it went. Where PollStartToWhatsApp answers, its
  -- options are hashed by their names; and where Put then succeeds with the options in any order,
  -- into a table whose hashes are of 32 bytes, any vote for options of the poll is sent as their
  -- hashes, where the ID of the poll message parses, and else refused, and a vote with those
  -- hashes is received as the same answers.
  pub poll_votes_return :
      (bridge : Bytes) (poll : PollStart) (reply_to : Option Bytes) (portal : Portal)
      (creation : PollCreation) (es stored : List Entry) (mxid : Bytes) (refused : Bool)
      (rows : List PollOption) (chosen : List Entry)
      → IsMade bridge poll reply_to portal creation es stored mxid refused rows
      → All (λ e. IsIn e es) chosen
      → (map hash_in es ≡ map sha.sum creation.options)
        × IsReturned bridge
            (put bridge mxid refused stored rows).0
            (record { is_matrix_poll = true; mxid = mxid })
            chosen
  unfolding IsLong IsFoundHere
  poll_votes_return bridge poll reply_to portal creation es stored mxid refused rows chosen made
        among =
      let (long, names) =
        poll_start-lem sha parse_html lib poll reply_to portal creation es made.made in
      let all_long = All-of IsLong stored (λ e i. All-at IsLong es long e ((made.same e).1 i)) in
      (
        names,
        found-IsReturned bridge mxid (put bridge mxid refused stored rows).0 chosen _ refl refl
            (put-IsChecked bridge mxid refused stored rows made.checked all_long)
            (λ e i.
              let of = All-at (λ f. IsIn f es) chosen among e i in
              (
                put-IsFound bridge mxid refused stored rows e (map hash_in chosen)
                    (map id_in chosen) made.checked all_long made.done ((made.same e).0 of),
                All-at IsLong es long e of,
              )),
      )
