-- ===== src/Msgconv/Polls/Tests.antt =====
-- A poll of two options, and a vote for one. The hash of a text is the text itself in 32 bytes.
use whatsapp_matrix_bridge.Common.{
  ℕ, zero, suc, ◌≡◌, refl, ap, true, false, none, some, List, [], ◌∷◌, map, length, inl, inr, Bytes,
  beq, Bytes-discrete, ℕ_discrete,
}
use whatsapp_matrix_bridge.Common.Text.{codes}
use whatsapp_matrix_bridge.Common.Result.{ok}
use whatsapp_matrix_bridge.Waid.Jid.Plain.{plain_jids}
use whatsapp_matrix_bridge.Connector.ChatInfo.{off}
use whatsapp_matrix_bridge.Wadb.PollOption.{Entry, is_of, is_among, conflicts, insert_all, put}
use whatsapp_matrix_bridge.Wadb.PollOption.Stored.{IsChecked, IsIn}
use whatsapp_matrix_bridge.Msgconv.Ephemeral.{Portal, generate_context_info}
use whatsapp_matrix_bridge.Msgconv.Polls.{
  Msc1767, Sha256, PollStart, PollCreation, msc1767_to_whatsapp, add_options,
  poll_start_to_whatsapp,
}
use whatsapp_matrix_bridge.Msgconv.Polls.Mapped.{hash_in}
use whatsapp_matrix_bridge.Msgconv.Polls.Votes.{IsReturned, IsMade, poll_votes_return}

abbrev fit : ℕ → Bytes → Bytes
fit zero b = []
fit (suc n) [] = 0 ∷ fit n []
fit (suc n) (c ∷ b) = c ∷ fit n b

length-fit : (n : ℕ) (b : Bytes) → length (fit n b) ≡ n
length-fit zero b = refl
length-fit (suc n) [] = ap suc (length-fit n [])
length-fit (suc n) (c ∷ b) = ap suc (length-fit n b)

abbrev sha : Sha256
sha = record { sum = fit 32; length-sum = length-fit 32 }

abbrev parse_html : Bytes → Bytes × List Bytes
parse_html b = (b, [])

abbrev text_of : Bytes → Msc1767
text_of b = record { text = b; html = []; message = [] }

abbrev poll : PollStart
poll = record {
  question = text_of (codes "Lunch?");
  answers = (codes "1", text_of (codes "yes")) ∷ (codes "2", text_of (codes "no")) ∷ [];
  max_selections = some 1;
}

abbrev portal : Portal
portal = record { disappear = off; set_at = 0 }

abbrev yes_option : Entry
yes_option = record { hash = fit 32 (codes "yes"); id = codes "1" }

abbrev no_option : Entry
no_option = record { hash = fit 32 (codes "no"); id = codes "2" }

abbrev entries : List Entry
entries = yes_option ∷ no_option ∷ []

abbrev creation : PollCreation
creation = record {
  name = codes "Lunch?";
  options = codes "yes" ∷ codes "no" ∷ [];
  selectable_options_count = 1;
  context_info = record {
    stanza_id = none;
    participant = none;
    expiration = none;
    ephemeral_setting_timestamp = none;
  };
  mentioned = [];
}

made : poll_start_to_whatsapp sha parse_html plain_jids poll none portal ≡ ok (creation, entries)
unfolding poll_start_to_whatsapp generate_context_info msc1767_to_whatsapp add_options is_among beq
    Bytes-discrete ℕ_discrete
made = refl

poll-IsMade :
    IsMade sha parse_html plain_jids
      (codes "b")
      poll
      none
      portal
      creation
      entries
      entries
      (codes "$poll")
      false
      []
unfolding put insert_all conflicts is_of beq Bytes-discrete ℕ_discrete IsChecked
poll-IsMade = record { made = made; same = λ e. (λ i. i, λ i. i); checked = tt; done = refl }

no-IsIn : IsIn no_option entries
unfolding IsIn
no-IsIn = inr (inl refl)

poll_votes_return_example :
    (map hash_in entries ≡ map sha.sum creation.options)
    × IsReturned
        (codes "b")
        (put (codes "b") (codes "$poll") false entries []).0
        (record { is_matrix_poll = true; mxid = codes "$poll" })
        (no_option ∷ [])
poll_votes_return_example =
    poll_votes_return sha parse_html plain_jids (codes "b") poll none portal creation entries
      entries (codes "$poll") false [] (no_option ∷ []) poll-IsMade (no-IsIn, tt)
