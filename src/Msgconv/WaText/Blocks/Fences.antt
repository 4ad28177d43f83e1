-- ===== src/Msgconv/WaText/Blocks/Fences.antt =====
-- A code block between two fences, as pkg/msgconv/wa-text.go finds it at the front of a text.
use whatsapp_matrix_bridge.Common.{
  ℕ, zero, suc, ◌+◌, ◌≡◌, refl, ap, sym, ◌∙◌, ◌<◌, ◌≤◌, true, false, ◌⊎◌, inl, inr, none, some, [],
  ◌∷◌, ◌++◌, drop, length, length-append, append_assoc, Bytes, arith, Bool-cases, Option-cases,
}
use whatsapp_matrix_bridge.Common.Text.{has_prefix}
use whatsapp_matrix_bridge.Msgconv.WaText.Blocks.{
  fence, find_fence, is_ascii_space, is_wide_space, space_length, is_blank_from, is_blank,
  close_block, code_block,
}

has_prefix-fence : (s : Bytes) → has_prefix fence s ≡ true → s ≡ fence ++ drop 3 s
unfolding has_prefix
has_prefix-fence [] h = ground arith
has_prefix-fence (a ∷ []) h = ground arith
has_prefix-fence (a ∷ b ∷ []) h = ground arith
has_prefix-fence (a ∷ b ∷ c ∷ s) h = ground arith

has_prefix-append_right : (p s t : Bytes) → has_prefix p s ≡ true → has_prefix p (s ++ t) ≡ true
unfolding has_prefix
has_prefix-append_right [] s t h = refl
has_prefix-append_right (a ∷ p) [] t h = ground arith
has_prefix-append_right (a ∷ p) (c ∷ s) t h = ground (arith, has_prefix-append_right p s t)

-- A text that is split at its first fence.
abbrev IsSplit : Bytes → Bytes → Bytes → Type 0
IsSplit s p r = (s ≡ p ++ (fence ++ r)) × (find_fence p ≡ none)

find_fence-cons :
    (c : ℕ) (s : Bytes)
    → has_prefix fence (c ∷ s) ≡ false
    → (p r : Bytes) → IsSplit s p r
    → IsSplit (c ∷ s) (c ∷ p) r
unfolding find_fence
find_fence-cons c s e p r (joins, lacks) = (
  ap (◌∷◌ c) joins,
  elim (Bool-cases (has_prefix fence (c ∷ p))) [
    | inl y ↦
        let longer : has_prefix fence (c ∷ s) ≡ true =
          rw (joins) (has_prefix-append_right fence (c ∷ p) (fence ++ r) y) in
        ground (arith, e, longer)
    | inr n ↦ ground (arith, n, lacks)
  ],
)

find_fence-some : (s : Bytes) {p r : Bytes} → find_fence s ≡ some (p, r) → IsSplit s p r
unfolding find_fence
find_fence-some [] h = ground arith
find_fence-some (c ∷ s) {p} {r} h = elim (Bool-cases (has_prefix fence (c ∷ s))) [
  | inl e ↦ ground (arith, e, has_prefix-fence (c ∷ s) e)
  | inr e ↦ elim (Option-cases (find_fence s)) [
    | inl n ↦ ground (arith, e, n)
    | inr ((front, back), n) ↦
        ground (arith, e, n, find_fence-cons c s e front back (find_fence-some s n))
  ]
]

space_length-append :
    (s t : Bytes) (n : ℕ)
    → space_length s ≡ suc n
    → (n < length s) × (space_length (s ++ t) ≡ suc n)
unfolding space_length has_prefix is_ascii_space is_wide_space
space_length-append [] t n h = ground arith
space_length-append (a ∷ []) t n h = ground arith
space_length-append (a ∷ b ∷ []) t n h = ground arith
space_length-append (a ∷ b ∷ c ∷ s) t n h = ground arith

ℕ-cases : (n : ℕ) → (n ≡ 0) ⊎ ((m : ℕ) × (n ≡ suc m))
ℕ-cases zero = inl refl
ℕ-cases (suc m) = inr (m, refl)

is_blank_from-append :
    (n : ℕ) (b t : Bytes)
    → is_blank_from n b ≡ true
    → n ≤ length b
    → is_blank_from n (b ++ t) ≡ is_blank_from 0 t
unfolding is_blank_from
is_blank_from-append zero [] t h le = refl
is_blank_from-append (suc n) [] t h le = ground arith
is_blank_from-append (suc n) (c ∷ b) t h le = is_blank_from-append n b t h (omega arith)
is_blank_from-append zero (c ∷ b) t h le = elim (ℕ-cases (space_length (c ∷ b))) [
  | inl e ↦ ground (arith, h, e)
  | inr (n, e) ↦
      let (fits, same) = space_length-append (c ∷ b) t n e in
      ground (arith, h, e, same, fits, is_blank_from-append n b t)
]

-- The content of a code block: not blank and without a fence, or blank up to its only one.
pub IsContent : Bytes → Type 0
IsContent c =
    ((is_blank c ≡ false) × (find_fence c ≡ none))
    ⊎ ((b : Bytes) × (more : Bytes) × (c ≡ b ++ (fence ++ more))
        × (is_blank b ≡ true)
        × (find_fence b ≡ none)
        × (find_fence more ≡ none))

extended :
    (s front more back after : Bytes)
    → IsSplit s front back
    → IsSplit back more after
    → is_blank front ≡ true
    → (s ≡ (front ++ (fence ++ more)) ++ (fence ++ after)) × IsContent (front ++ (fence ++ more))
unfolding IsContent
extended s front more back after (joins, lacks) (joins2, lacks2) blank = (
  joins
      ∙ ap (λ x. front ++ (fence ++ x)) joins2
      ∙ sym (append_assoc front (fence ++ more) (fence ++ after)),
  inr (front, more, refl, blank, lacks, lacks2),
)

close_block-some :
    (s : Bytes) {c r : Bytes} → close_block s ≡ some (c, r) → (s ≡ c ++ (fence ++ r)) × IsContent c
unfolding close_block IsContent
close_block-some s {c} {r} h = elim (Option-cases (find_fence s)) [
  | inl e ↦ ground (arith, h, e)
  | inr ((front, back), e) ↦
      let (joins, lacks) = find_fence-some s e in
      elim (Bool-cases (is_blank front)) [
        | inr full ↦ ground (arith, h, e, full, joins, lacks)
        | inl blank ↦ elim (Option-cases (find_fence back)) [
          | inl n ↦ ground (arith, h, e, blank, n)
          | inr ((more, after), n) ↦ ground (
            arith,
            h,
            e,
            blank,
            n,
            extended s front more back after (joins, lacks) (find_fence-some back n) blank,
          )
        ]
      ]
]

pub code_block-some :
    (s : Bytes) {p c r : Bytes}
    → code_block s ≡ some (p, c, r)
    → (s ≡ p ++ (fence ++ (c ++ (fence ++ r)))) × (find_fence p ≡ none) × IsContent c
unfolding code_block
code_block-some s {p} {c} {r} h = elim (Option-cases (find_fence s)) [
  | inl e ↦ ground (arith, h, e)
  | inr ((front, back), e) ↦
      let (joins, lacks) = find_fence-some s e in
      elim (Option-cases (close_block back)) [
        | inl n ↦ ground (arith, h, e, n)
        | inr ((inner, after), n) ↦ ground (
          arith,
          h,
          e,
          n,
          lacks,
          joins ∙ ap (λ x. front ++ (fence ++ x)) (close_block-some back n).0,
          (close_block-some back n).1,
        )
      ]
]

-- A text in which no code block ends: it has no fence, or none behind its first one, or a blank
-- between its only two.
pub IsOpen : Bytes → Type 0
IsOpen t =
    (find_fence t ≡ none)
    ⊎ ((p : Bytes) × (u : Bytes) × (t ≡ p ++ (fence ++ u))
        × (find_fence p ≡ none)
        × ((find_fence u ≡ none)
            ⊎ ((b : Bytes) × (v : Bytes) × (u ≡ b ++ (fence ++ v))
                × (find_fence b ≡ none)
                × (is_blank b ≡ true)
                × (find_fence v ≡ none))))

close_block-none :
    (u : Bytes)
    → close_block u ≡ none
    → (find_fence u ≡ none)
      ⊎ ((b : Bytes) × (v : Bytes) × (u ≡ b ++ (fence ++ v))
          × (find_fence b ≡ none)
          × (is_blank b ≡ true)
          × (find_fence v ≡ none))
unfolding close_block
close_block-none u h = elim (Option-cases (find_fence u)) [
  | inl e ↦ inl e
  | inr ((front, back), e) ↦
      let (joins, lacks) = find_fence-some u e in
      inr (
        front,
        back,
        joins,
        lacks,
        elim (Bool-cases (is_blank front)) [
          | inr full ↦ ground (arith, h, e, full)
          | inl blank ↦ blank
        ],
        elim (Option-cases (find_fence back)) [ inl n ↦ n | inr (m, n) ↦ ground (arith, h, e, n) ],
      )
]

pub code_block-none : (t : Bytes) → code_block t ≡ none → IsOpen t
unfolding code_block IsOpen
code_block-none t h = elim (Option-cases (find_fence t)) [
  | inl e ↦ inl e
  | inr ((p, u), e) ↦
      let (joins, lacks) = find_fence-some t e in
      elim (Option-cases (close_block u)) [
        | inl n ↦ inr (p, u, joins, lacks, close_block-none u n)
        | inr (m, n) ↦ ground (arith, h, e, n)
      ]
]

pub code_block-shorter :
    (s p c r : Bytes) → s ≡ p ++ (fence ++ (c ++ (fence ++ r))) → length r + 6 ≤ length s
code_block-shorter s p c r e =
    ground (arith, e, length-append p (fence ++ (c ++ (fence ++ r))), length-append c (fence ++ r))
