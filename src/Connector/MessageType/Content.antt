-- ===== src/Connector/MessageType/Content.antt =====
-- Which messages the bridge passes over.
use whatsapp_matrix_bridge.Common.{◌≡◌, refl, true, false, some, List, [], ◌∷◌, ◌++◌, arith, All}
use whatsapp_matrix_bridge.Connector.MessageType.{
  Message, Case, content_cases, later_cases, any_present, first_case, get_message_type, is_ignored,
  get_reaction_type,
}

-- No message that the case takes is ignored.
abbrev IsShown : Case → Type 0
IsShown c = (m : Message) → is_ignored (c.result m) ≡ false

-- No field of the case is present.
abbrev pub Misses : Message → Case → Type 0
Misses m c = any_present m c.fields ≡ false

get_reaction_type-is_ignored : (m : Message) → is_ignored (get_reaction_type m) ≡ false
unfolding get_reaction_type is_ignored
get_reaction_type-is_ignored m = ground arith

content_cases-IsShown : All IsShown content_cases
unfolding content_cases is_ignored
content_cases-IsShown = (
  (λ m. refl),
  (
    (λ m. refl),
    (
      (λ m. refl),
      (
        (λ m. refl),
        (
          (λ m. refl),
          (
            (λ m. refl),
            (
              (λ m. refl),
              (
                (λ m. refl),
                (
                  (λ m. refl),
                  (
                    (λ m. refl),
                    (
                      (λ m. refl),
                      (
                        (λ m. refl),
                        (
                          (λ m. refl),
                          (
                            (λ m. refl),
                            (
                              (λ m. refl),
                              (
                                get_reaction_type-is_ignored,
                                ((λ m. refl), ((λ m. refl), ((λ m. refl), ((λ m. refl), tt)))),
                              ),
                            ),
                          ),
                        ),
                      ),
                    ),
                  ),
                ),
              ),
            ),
          ),
        ),
      ),
    ),
  ),
)

-- The first case that is not missed decides.
first_case-append :
    (cs ds : List Case) (m : Message)
    → All IsShown cs
    → is_ignored (first_case (cs ++ ds) m) ≡ true
    → All (Misses m) cs
unfolding first_case
first_case-append [] ds m h e = tt
first_case-append (c ∷ cs) ds m (hc, hs) e = ground (arith, hc m, first_case-append cs ds m hs)

-- A message that is ignored has no content: no field of the cases before the protocol message,
-- from the text to the polls, is present.
pub ignored_message_no_content :
    (m : Message) → is_ignored (get_message_type (some m)) ≡ true → All (Misses m) content_cases
unfolding get_message_type
ignored_message_no_content m e =
    first_case-append content_cases later_cases m content_cases-IsShown e
