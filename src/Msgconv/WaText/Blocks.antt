-- ===== src/Msgconv/WaText/Blocks.antt =====
-- pkg/msgconv/wa-text.go, `parseWAFormattingToHTML` and `parseFormatting`: the loop over the code
-- blocks. Offsets into the text are the parts of the text that they divide.
pub mod Fences
pub mod Sections
use whatsapp_matrix_bridge.Common.{
  ℕ, zero, suc, ◌-◌, Bool, true, false, not, ◌&&◌, ◌||◌, Option, none, some, List, [], ◌∷◌, ◌++◌,
  drop, length, leb, ◌==◌, if◌then◌else◌, Bytes, beq, Bytes-discrete,
}
use whatsapp_matrix_bridge.Common.Text.{codes, has_prefix}
use whatsapp_matrix_bridge.Msgconv.WaText.{
  Piece, pre_code, code, escape_string, html_of, Regexps, line_html,
  parse_wa_sub_formatting_to_html,
}

abbrev pub fence : Bytes
fence = codes "```"

-- `strings.Index` of the fence, as the text before and behind it.
unfoldable pub find_fence : Bytes → Option (Bytes × Bytes)
find_fence [] = none
find_fence (c ∷ s) =
    if has_prefix fence (c ∷ s)
    then some ([], drop 2 s)
    else elim (find_fence s) [ none ↦ none | some (front, back) ↦ some (c ∷ front, back) ]

is_ascii_space : ℕ → Bool
is_ascii_space c = c == 32 || leb 9 c && leb c 13

-- The last byte of U+2000 to U+200A, U+2028, U+2029 and U+202F.
is_wide_space : Bytes → Bool
is_wide_space [] = false
is_wide_space (c ∷ s) = leb 128 c && leb c 138 || c == 168 || c == 169 || c == 175

-- The length of the white space that a text in UTF-8 begins with, 0 if it begins with none.
unfoldable pub space_length : Bytes → ℕ
unfolding is_ascii_space is_wide_space
space_length [] = 0
space_length (a ∷ s) =
    if is_ascii_space a
    then 1
    else if a == 194 && (has_prefix (133 ∷ []) s || has_prefix (160 ∷ []) s)
    then 2
    else if a == 225 && has_prefix (154 ∷ 128 ∷ []) s
        || a == 226 && has_prefix (129 ∷ 159 ∷ []) s
        || a == 227 && has_prefix (128 ∷ 128 ∷ []) s
        || a == 226 && has_prefix (128 ∷ []) s && is_wide_space (drop 1 s)
    then 3
    else 0

-- `strings.TrimSpace(s) == ""`, with the number of bytes that a white space still has.
unfoldable pub is_blank_from : ℕ → Bytes → Bool
is_blank_from n [] = true
is_blank_from (suc n) (c ∷ s) = is_blank_from n s
is_blank_from zero (c ∷ s) = elim (space_length (c ∷ s)) [
  | zero ↦ false
  | suc n ↦ is_blank_from n s
]

abbrev pub is_blank : Bytes → Bool
is_blank = is_blank_from 0

contains : ℕ → Bytes → Bool
contains b [] = false
contains b (c ∷ s) = c == b || contains b s

-- The end of the block: a block without content goes on to the next fence.
unfoldable pub close_block : Bytes → Option (Bytes × Bytes)
close_block s = elim (find_fence s) [
  | none ↦ none
  | some (content, rest) ↦
      if is_blank content
      then elim (find_fence rest) [
        | none ↦ none
        | some (more, after) ↦ some (content ++ (fence ++ more), after)
      ]
      else some (content, rest)
]

-- A round up to where it moves `codeBlockPtr`: the prefix, the content and the text behind.
unfoldable pub code_block : Bytes → Option (Bytes × Bytes × Bytes)
code_block s = elim (find_fence s) [
  | none ↦ none
  | some (prefix, behind) ↦ elim (close_block behind) [
    | none ↦ none
    | some (content, rest) ↦ some (prefix, content, rest)
  ]
]

module _ (format : Bytes → Bytes) where
  unfoldable pub write_text : Bytes → List Piece
  write_text [] = []
  write_text (c ∷ s) = parse_wa_sub_formatting_to_html format (c ∷ s)

  unfoldable pub write_code : Bytes → Piece
  unfolding contains
  write_code s = if contains b'\n' s then pre_code (escape_string s) else code (escape_string s)

  -- The loop, and the text behind the last code block.
  unfoldable pub write_blocks : ℕ → Bytes → Option (List Piece)
  write_blocks zero s = none
  write_blocks (suc fuel) s = elim (code_block s) [
    | none ↦ some (write_text s)
    | some (prefix, content, rest) ↦ elim (write_blocks fuel rest) [
      | none ↦ none
      | some pieces ↦ some (write_text prefix ++ (write_code content ∷ pieces))
    ]
  ]

  unfoldable pub parse_wa_formatting_to_html : Bytes → Option (List Piece)
  parse_wa_formatting_to_html s = write_blocks (suc (length s)) s

-- `FormattedBody` after `parseFormatting`, where the format is HTML. `text_to_html` is
-- `event.TextToHTML` of mautrix.
unfoldable pub parse_formatting :
    (Bytes → Bytes) → Regexps → Bytes → Bool → Bool → Option (Option Bytes)
parse_formatting text_to_html re body allow_inline_url force_html =
    elim (parse_wa_formatting_to_html (line_html re allow_inline_url) body) [
      | none ↦ none
      | some pieces ↦
          if force_html || not (beq Bytes-discrete (html_of pieces) (text_to_html body))
          then some (some (html_of pieces))
          else some none
    ]
