-- ===== src/Msgconv/Polls.antt =====
-- pkg/msgconv/matrixpoll.go, polls and votes from Matrix, and `convertPollUpdateMessage` of
-- pkg/msgconv/wa-poll.go, votes from WhatsApp.
pub mod Mapped
pub mod Votes
pub mod Tests
use whatsapp_matrix_bridge.Common.{
  ℕ, ◌≡◌, ◌+◌, ◌*◌, Bool, true, false, not, ◌&&◌, Option, none, some, List, [], ◌∷◌, ◌++◌, map,
  length, leb, ◌==◌, if◌then◌else◌, Bytes, beq, Bytes-discrete,
}
use whatsapp_matrix_bridge.Common.Result.{Result, ok, err, ◌>>=◌, Call, returns, panics}
use whatsapp_matrix_bridge.Waid.Jid.{Jid, JidLib, is_group}
use whatsapp_matrix_bridge.Waid.Id.{ParsedMessageId, parse_message_id}
use whatsapp_matrix_bridge.Waid.Media.Hex.{digit_value, encode}
use whatsapp_matrix_bridge.Wadb.PollOption.{
  PollOption, Entry, is_among, get_ids, get_hashes, id_of, hash_of,
}
use whatsapp_matrix_bridge.Msgconv.Ephemeral.{Portal, ContextInfo, generate_context_info}

pub data Mime : Type 0 where
  html plain other_type : Mime

-- `event.MSC1767Message`
pub record Msc1767 : Type 0 where
  pub text : Bytes
  pub html : Bytes
  pub message : List (Mime × Bytes)

-- `event.PollStartEventContent`: each answer with its ID; `max_selections` is `none` if negative.
pub record PollStart : Type 0 where
  pub question : Msc1767
  pub answers : List (Bytes × Msc1767)
  pub max_selections : Option ℕ

-- `waE2E.PollCreationMessage`, with what is mentioned in the question.
pub record PollCreation : Type 0 where
  pub name : Bytes
  pub options : List Bytes
  pub selectable_options_count : ℕ
  pub context_info : ContextInfo
  pub mentioned : List Bytes

pub data Error : Type 0 where
  bad_reply missing_question duplicate_option no_hashes bad_message_id : Error

is_empty : Bytes → Bool
is_empty b = beq Bytes-discrete b []

-- A round of the loop over the parts.
add_part : Mime × Bytes → Msc1767 → Msc1767
unfolding is_empty
add_part (html, body) msg = if is_empty msg.html then record msg { html = body } else msg
add_part (plain, body) msg = if is_empty msg.text then record msg { text = body } else msg
add_part (other_type, body) msg = msg

add_parts : List (Mime × Bytes) → Msc1767 → Msc1767
add_parts [] msg = msg
add_parts (p ∷ ps) msg = add_parts ps (add_part p msg)

-- The argument is the HTML parser, with what it mentions.
unfoldable pub msc1767_to_whatsapp : (Bytes → Bytes × List Bytes) → Msc1767 → Bytes × List Bytes
unfolding add_parts add_part is_empty
msc1767_to_whatsapp parse_html msg =
    let whole = add_parts msg.message msg in
    if is_empty whole.html then (whole.text, []) else parse_html whole.html

-- `crypto/sha256`, whose hashes are of 32 bytes.
pub record Sha256 : Type 0 where
  pub sum : Bytes → Bytes
  pub length-sum : (b : Bytes) → length (sum b) ≡ 32

max_answers : ℕ → Option ℕ → ℕ
max_answers count none = 0
max_answers count (some n) = if leb count n then 0 else n

module _ (sha : Sha256) (parse_html : Bytes → Bytes × List Bytes) where
  -- The text of an answer, and its entry in the map of options.
  abbrev pub body_of : Bytes × Msc1767 → Bytes
  body_of (id, msg) = (msc1767_to_whatsapp parse_html msg).0

  abbrev pub entry_of : Bytes × Msc1767 → Entry
  entry_of (id, msg) = record { hash = sha.sum (msc1767_to_whatsapp parse_html msg).0; id = id }

  -- The loop over the answers; `none` is a duplicate.
  unfoldable pub add_options :
      List (Bytes × Msc1767) → List Bytes → List Entry → Option (List Bytes × List Entry)
  add_options [] names entries = some (names, entries)
  add_options (a ∷ answers) names entries =
      elim (is_among (entry_of a).hash (map (λ e. e.hash) entries)) [
        | true ↦ none
        | false ↦ add_options answers (names ++ (body_of a ∷ [])) (entries ++ (entry_of a ∷ []))
      ]

  finish_poll :
      ContextInfo → Bytes × List Bytes → PollStart → Result Error (PollCreation × List Entry)
  unfolding is_empty max_answers
  finish_poll context question poll =
      if is_empty question.0 then err missing_question else elim (add_options poll.answers [] []) [
        | none ↦ err duplicate_option
        | some (names, entries) ↦ ok (
          record {
            name = question.0;
            options = names;
            selectable_options_count = max_answers (length poll.answers) poll.max_selections;
            context_info = context;
            mentioned = question.1;
          },
          entries,
        )
      ]

  unfoldable pub poll_start_to_whatsapp :
      JidLib → PollStart → Option Bytes → Portal → Result Error (PollCreation × List Entry)
  unfolding finish_poll
  poll_start_to_whatsapp lib poll reply_to portal =
      elim (generate_context_info lib reply_to portal) [
        | err e ↦ err bad_reply
        | ok context ↦ finish_poll context (msc1767_to_whatsapp parse_html poll.question) poll
      ]

-- `hex.DecodeString` without its error: the bytes before the first bad digit.
unfoldable pub decode_prefix : Bytes → Bytes
decode_prefix [] = []
decode_prefix (h ∷ []) = []
decode_prefix (h ∷ l ∷ s) = elim (digit_value h) [
  | none ↦ []
  | some hi ↦ elim (digit_value l) [ none ↦ [] | some lo ↦ (hi * 16 + lo) ∷ decode_prefix s ]
]

-- A poll message: whether it was made on Matrix, and its event ID.
pub record Poll : Type 0 where
  pub is_matrix_poll : Bool
  pub mxid : Bytes

-- The loops over the answers of a vote from Matrix.
unfoldable pub mapped_hashes : List Entry → List Bytes → List Bytes
mapped_hashes found [] = []
mapped_hashes found (a ∷ answers) =
    let rest = mapped_hashes found answers in
    elim (hash_of a found) [ none ↦ rest | some h ↦ h ∷ rest ]

unfoldable pub decoded_hashes : List Bytes → List Bytes
decoded_hashes [] = []
decoded_hashes (a ∷ answers) =
    let rest = decoded_hashes answers in
    if length (decode_prefix a) == 32 then decode_prefix a ∷ rest else rest

-- The loop over the options of a vote from WhatsApp to a poll of Matrix.
unfoldable pub mapped_answers : List Entry → List Bytes → List Bytes
mapped_answers found [] = []
mapped_answers found (h ∷ hashes) =
    (if not (length h == 32) then [] else elim (id_of h found) [ none ↦ [] | some id ↦ id ])
    ∷ mapped_answers found hashes

-- `pollMsgInfo`, without its constant type.
pub record PollMessageInfo : Type 0 where
  pub chat : Jid
  pub sender : Jid
  pub is_from_me : Bool
  pub is_group : Bool
  pub id : Bytes

unfoldable pub poll_msg_info : Bytes → ParsedMessageId → PollMessageInfo
poll_msg_info user parsed = record {
  chat = parsed.chat;
  sender = parsed.sender;
  is_from_me = beq Bytes-discrete parsed.sender.user user;
  is_group = is_group parsed.chat.server;
  id = parsed.id;
}

module _ (bridge : Bytes) (rows : List PollOption) where
  -- `optionHashes` of PollVoteToWhatsApp.
  unfoldable pub option_hashes : Poll → List Bytes → Result Error (List Bytes)
  option_hashes poll answers =
      if poll.is_matrix_poll
      then elim (get_hashes bridge poll.mxid answers rows) [
        | none ↦ err no_hashes
        | some found ↦ ok (mapped_hashes found answers)
      ]
      else ok (decoded_hashes answers)

  -- What is handed to `EncryptPollVote`. `user` is that of `client.Store.ID`, and `id` the ID of
  -- the poll message.
  unfoldable pub poll_vote_to_whatsapp :
      JidLib → Bytes → Bytes → Poll → List Bytes → Result Error (PollMessageInfo × List Bytes)
  poll_vote_to_whatsapp lib user id poll answers = elim (parse_message_id lib id) [
    | err e ↦ err bad_message_id
    | ok parsed ↦ elim (option_hashes poll answers) [
      | err e ↦ err e
      | ok hashes ↦ ok (poll_msg_info user parsed, hashes)
    ]
  ]

  -- `selectedHashes` for a poll and a vote; `none` where the failed part is returned.
  unfoldable pub selected_answers : Poll → List Bytes → Option (List Bytes)
  selected_answers poll options =
      if poll.is_matrix_poll
      then elim (get_ids bridge poll.mxid options rows) [
        | none ↦ none
        | some found ↦ some (mapped_answers found options)
      ]
      else some (map encode options)

  -- What the lookup of the poll message answers, as `err` or with `none` where there is no such
  -- message, which is not looked at, and what the decryption of the vote answers.
  unfoldable pub convert_poll_update_message :
      Result Bytes (Option Poll) → Option (List Bytes) → Call (Option (List Bytes))
  convert_poll_update_message (err e) vote = returns none
  convert_poll_update_message (ok poll) none = returns none
  convert_poll_update_message (ok none) (some options) = panics
  convert_poll_update_message (ok (some poll)) (some options) =
      returns (selected_answers poll options)
