-- ===== src/Connector/Groups/Filter.antt =====
-- Which of the joined groups pkg/connector/client.go passes on.
use whatsapp_matrix_bridge.Common.{
  ◌≡◌, ◌≢◌, ◌↔◌, refl, ap, ◌∙◌, ◌≤◌, true, false, ◌⊎◌, inl, inr, Option, none, some, List, [], ◌∷◌,
  map, length, Bytes, arith, Bool-cases, beq_iff, Bytes-discrete,
}
use whatsapp_matrix_bridge.Waid.Jid.{JidLib}
use whatsapp_matrix_bridge.Connector.Groups.{
  Participant, Group, FormattedGroup, BasicGroup, has_participant, is_wanted, filter_groups,
  to_formatted_group, to_basic_group, is_user_participant, format_groups, formatted_of, or_nil,
}

-- The second list is the part of the first that satisfies `P`, in its order.
pub data Selects {A : Type 0} (P : A → Type 0) : List A → List A → Type 0 where
  nil : Selects P [] []
  take : {x : A} {xs ys : List A} → P x → Selects P xs ys → Selects P (x ∷ xs) (x ∷ ys)
  leave : {x : A} {xs ys : List A} → ¬ P x → Selects P xs ys → Selects P (x ∷ xs) ys

pub Takes : Bytes → List Participant → Type 0
Takes user [] = ⊥
Takes user (p ∷ ps) = (p.jid.user ≡ user) ⊎ Takes user ps

-- A community that the user takes part in, or a group of three members or more.
pub IsWanted : Bytes → Group → Type 0
IsWanted user g =
    ((g.is_parent ≡ true) × Takes user g.participants)
    ⊎ ((g.is_parent ≡ false) × (3 ≤ length g.participants))

has_participant-Takes :
    (user : Bytes) (ps : List Participant) → (has_participant user ps ≡ true) ↔ Takes user ps
unfolding has_participant Takes
has_participant-Takes user [] = ground arith
has_participant-Takes user (p ∷ ps) =
    ground (arith, beq_iff Bytes-discrete p.jid.user user, has_participant-Takes user ps)

is_wanted-IsWanted : (user : Bytes) (g : Group) → (is_wanted user g ≡ true) ↔ IsWanted user g
unfolding is_wanted IsWanted
is_wanted-IsWanted user g = ground (arith, has_participant-Takes user g.participants)

pub filter_groups-Selects :
    (user : Bytes) (gs : List Group) → Selects (IsWanted user) gs (filter_groups user gs)
unfolding filter_groups
filter_groups-Selects user [] = nil
filter_groups-Selects user (g ∷ gs) = elim (Bool-cases (is_wanted user g)) [
  | inl e ↦ rw (e) (take ((is_wanted-IsWanted user g).0 e) (filter_groups-Selects user gs))
  | inr e ↦ rw (e) (
      leave (λ w. ground (arith, e, (is_wanted-IsWanted user g).1 w))
        (filter_groups-Selects user gs))
]

-- The entries of a formatted list that the basic schema has too.
abbrev pub basic_of : FormattedGroup → BasicGroup
basic_of f = record { jid = f.jid; name = f.name; participant_count = f.participant_count }

abbrev pub or_empty : Option (List FormattedGroup) → List FormattedGroup
or_empty none = []
or_empty (some fs) = fs

or_nil-lem :
    (fs : List FormattedGroup) → (or_empty (or_nil fs) ≡ fs) × ((or_nil fs ≡ none) ↔ (fs ≡ []))
unfolding or_nil
or_nil-lem [] = ground arith
or_nil-lem (f ∷ fs) = ground arith

map-nil {ℓ κ} : {A : Type ℓ} {B : Type κ} (f : A → B) (xs : List A) → (map f xs ≡ []) ↔ (xs ≡ [])
map-nil f [] = ground arith
map-nil f (x ∷ xs) = ground arith

module _ (lib : JidLib) where
  is_user_participant-has_participant :
      (user : Bytes) (ps : List Participant)
      → is_user_participant lib user ps ≡ has_participant user ps
  unfolding is_user_participant has_participant
  is_user_participant-has_participant user [] = refl
  is_user_participant-has_participant user (p ∷ ps) =
      ground (arith, is_user_participant-has_participant user ps)

  -- The two loops keep the same groups.
  format_groups-filter_groups :
      (user : Bytes) (gs : List Group)
      → format_groups lib user gs ≡ map (to_formatted_group lib) (filter_groups user gs)
  unfolding format_groups filter_groups is_wanted
  format_groups-filter_groups user [] = refl
  format_groups-filter_groups user (g ∷ gs) = ground (
    arith,
    is_user_participant-has_participant user g.participants,
    format_groups-filter_groups user gs,
  )

  basic_of-to_formatted_group :
      (gs : List Group)
      → map basic_of (map (to_formatted_group lib) gs) ≡ map (to_basic_group lib) gs
  unfolding to_formatted_group to_basic_group
  basic_of-to_formatted_group [] = refl
  basic_of-to_formatted_group (g ∷ gs) =
      ap (◌∷◌ (to_basic_group lib g)) (basic_of-to_formatted_group gs)

  -- GetFormattedGroups and the basic schema of SendGroupsToReMatchBackend list the same groups in
  -- the same order with the same ID, name and number of participants; the list of the former is
  -- null exactly where there are groups and the filter keeps none.
  pub formatted_of-basic :
      (user : Bytes) (gs : List Group)
      → (map basic_of (or_empty (formatted_of lib user gs))
          ≡ map (to_basic_group lib) (filter_groups user gs))
        × ((formatted_of lib user gs ≡ none) ↔ ((gs ≢ []) × (filter_groups user gs ≡ [])))
  unfolding formatted_of filter_groups
  formatted_of-basic user [] = ground arith
  formatted_of-basic user (g ∷ gs) =
      let kept = filter_groups user (g ∷ gs) in
      let made = format_groups-filter_groups user (g ∷ gs) in
      let (same, null) = or_nil-lem (format_groups lib user (g ∷ gs)) in
      (
        ap (map basic_of) (same ∙ made) ∙ basic_of-to_formatted_group kept,
        ground (arith, null, made, map-nil (to_formatted_group lib) kept),
      )
