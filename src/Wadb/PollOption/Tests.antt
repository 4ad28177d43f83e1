-- ===== src/Wadb/PollOption/Tests.antt =====
-- The options of a poll at a concrete table. A hash is 32 equal bytes.
use whatsapp_matrix_bridge.Common.{
  ℕ, zero, suc, ◌≡◌, refl, true, false, List, [], ◌∷◌, inl, inr, Bytes, beq, Bytes-discrete,
  ℕ_discrete,
}
use whatsapp_matrix_bridge.Common.Text.{codes}
use whatsapp_matrix_bridge.Wadb.PollOption.{Entry, is_of, conflicts, insert_all, put}
use whatsapp_matrix_bridge.Wadb.PollOption.Stored.{IsChecked, IsIn}

abbrev repeat : ℕ → ℕ → Bytes
repeat zero b = []
repeat (suc n) b = b ∷ repeat n b

abbrev yes_option : Entry
yes_option = record { hash = repeat 32 1; id = codes "yes" }

abbrev no_option : Entry
no_option = record { hash = repeat 32 2; id = codes "no" }

abbrev options : List Entry
options = yes_option ∷ no_option ∷ []

abbrev poll : Bytes
poll = codes "$poll"

put_done : (put (codes "b") poll false options []).1 ≡ true
unfolding put insert_all conflicts is_of beq Bytes-discrete ℕ_discrete
put_done = refl

no-IsIn : IsIn no_option options
unfolding IsIn
no-IsIn = inr (inl refl)

empty-IsChecked : IsChecked []
unfolding IsChecked
empty-IsChecked = tt
