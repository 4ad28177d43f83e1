-- ===== src/Msgconv/WaText.antt =====
-- pkg/msgconv/wa-text.go: WhatsApp's formatting of lines to HTML. What is written to the output is kept as
-- a list of the pieces written, `html_of` being their text.

pub mod Blocks
pub mod Nesting
pub mod Numbering
pub mod Tests
use whatsapp_matrix_bridge.Common.{
  ℕ, zero, suc, ◌+◌, ◌-◌, ◌*◌, ◌<◌, Bool, true, false, not, ◌&&◌, ◌||◌, Option, none, some, List,
  [], ◌∷◌, ◌++◌, drop, length, leb, ltb, ◌==◌, if◌then◌else◌, Bytes, beq, Bytes-discrete,
}
use whatsapp_matrix_bridge.Common.Text.{codes, has_prefix}

-- The regular expressions of the styles of a line.
pub data Style : Type 0 where
  italic bold strikethrough inline_code : Style

-- What one call of `WriteString` or `Fprintf` writes.
pub data Piece : Type 0 where
  br ul end_ul end_ol : Piece
  -- `<ol>`, with its `start` where it has one
  ol : Option Bytes → Piece
  -- `<li>`, with its `value` where it has one
  li : Option Bytes → Bytes → Piece
  blockquote line : Bytes → Piece
  pre_code code : Bytes → Piece

attribute : Bytes → Option Bytes → Bytes
attribute name none = []
attribute name (some v) = codes " " ++ name ++ codes "=\"" ++ v ++ codes "\""

unfoldable pub piece_html : Piece → Bytes
unfolding attribute
piece_html br = codes "<br>"
piece_html ul = codes "<ul>"
piece_html end_ul = codes "</ul>"
piece_html end_ol = codes "</ol>"
piece_html (ol start) = codes "<ol" ++ attribute (codes "start") start ++ codes ">"
piece_html (li value text) =
    codes "<li" ++ attribute (codes "value") value ++ codes ">" ++ text ++ codes "</li>"
piece_html (blockquote text) = codes "<blockquote>" ++ text ++ codes "</blockquote>"
piece_html (line text) = text
piece_html (pre_code text) = codes "<pre><code>" ++ text ++ codes "</code></pre>"
piece_html (code text) = codes "<code>" ++ text ++ codes "</code>"

unfoldable pub html_of : List Piece → Bytes
html_of [] = []
html_of (p ∷ ps) = piece_html p ++ html_of ps

-- `strings.Split(text, "\n")`: never empty, so the first line stands apart.
unfoldable pub split_lines : Bytes → Bytes × List Bytes
split_lines [] = ([], [])
split_lines (c ∷ s) =
    let (first, rest) = split_lines s in
    if c == b'\n' then ([], first ∷ rest) else (c ∷ first, rest)

is_digit : ℕ → Bool
is_digit c = leb b'0' c && leb c b'9'

-- `strconv.Atoi` of digits.
unfoldable pub atoi_from : ℕ → Bytes → ℕ
atoi_from n [] = n
atoi_from n (c ∷ s) = atoi_from (n * 10 + (c - b'0')) s

abbrev pub atoi : Bytes → ℕ
atoi = atoi_from 0

two_digits : ℕ → Bytes → Option (Bytes × Bytes)
unfolding is_digit
two_digits a [] = none
two_digits a (b ∷ s) =
    if is_digit b && has_prefix (codes ". ") s then some (a ∷ b ∷ [], drop 2 s) else none

-- `orderedListItemRegex`: one or two digits, a dot and a space; the digits and the text behind.
unfoldable pub match_item : Bytes → Option (Bytes × Bytes)
unfolding is_digit two_digits
match_item [] = none
match_item (a ∷ s) =
    if is_digit a
    then if has_prefix (codes ". ") s then some (a ∷ [], drop 2 s) else two_digits a s
    else none

-- What the branches of the loop test.
pub data Kind : Type 0 where
  bulleted : Bytes → Kind
  ordered : Bytes → Bytes → Kind
  quoted plain : Bytes → Kind

unfoldable pub kind_of : Bytes → Kind
kind_of s =
    if has_prefix (codes "* ") s || has_prefix (codes "- ") s
    then bulleted (drop 2 s)
    else elim (match_item s) [
      | some (digits, text) ↦ ordered digits text
      | none ↦ if has_prefix (codes "> ") s then quoted (drop 2 s) else plain s
    ]

-- The variables of the loop; `next` is `orderedListIdx + 1`, so 0 outside of ordered lists.
pub record Lists : Type 0 where
  pub next : ℕ
  pub in_bulleted_list : Bool
  pub was_block_quote : Bool

abbrev pub no_lists : Lists
no_lists = record { next = 0; in_bulleted_list = false; was_block_quote = false }

-- The end of the list that is open, if one is.
unfoldable pub end_list : Lists → List Piece
end_list s = if ltb 0 s.next then end_ol ∷ [] else if s.in_bulleted_list then end_ul ∷ [] else []

-- The calls of the regexp package on the patterns of the styles and of the inline URLs. The order
-- in which Go ranges over the map of styles is not fixed.
pub record Regexps : Type 0 where
  pub replace_all : Style → Bytes → Bytes
  pub replace_urls : Bytes → Bytes
  pub range_styles : List Style

-- The `<br>` at the start of the body, after the first line.
unfoldable pub line_break : Lists → List Piece
line_break s = if ltb 0 s.next || s.in_bulleted_list || s.was_block_quote then [] else br ∷ []

escape : ℕ → Bytes
escape c =
    if c == b'&'
    then codes "&amp;"
    else if c == b'\''
    then codes "&#39;"
    else if c == b'<'
    then codes "&lt;"
    else if c == b'>'
    then codes "&gt;"
    else if c == b'"'
    then codes "&#34;"
    else c ∷ []

-- `html.EscapeString`
unfoldable pub escape_string : Bytes → Bytes
unfolding escape
escape_string [] = []
escape_string (c ∷ s) = escape c ++ escape_string s

replace_styles : (Style → Bytes → Bytes) → List Style → Bytes → Bytes
replace_styles replace [] text = text
replace_styles replace (s ∷ styles) text = replace_styles replace styles (replace s text)

unfoldable pub line_html : Regexps → Bool → Bytes → Bytes
unfolding replace_styles
line_html re allow_inline_url text =
    let styled = replace_styles re.replace_all re.range_styles (escape_string text) in
    if allow_inline_url then re.replace_urls styled else styled

module _ (format : Bytes → Bytes) where
  bulleted_item : Lists → Bytes → List Piece × Lists
  bulleted_item s text = (
    (if ltb 0 s.next then end_ol ∷ [] else [])
        ++ (if s.in_bulleted_list then [] else ul ∷ [])
        ++ (li none (format text) ∷ []),
    record { next = 0; in_bulleted_list = true; was_block_quote = false },
  )

  ordered_item : Lists → Bytes → Bytes → List Piece × Lists
  ordered_item s digits text =
      let index = atoi digits in
      let next = (if ltb 0 s.next then s.next else index) in
      (
        (if s.in_bulleted_list then end_ul ∷ [] else [])
            ++ (if ltb 0 s.next then [] else ol (if index == 1 then none else some digits) ∷ [])
            ++ (li (if next == index then none else some digits) (format text) ∷ []),
        record { next = suc index; in_bulleted_list = false; was_block_quote = false },
      )

  -- The branches of the loop's body.
  unfoldable pub write_kind : Lists → Kind → List Piece × Lists
  unfolding bulleted_item ordered_item
  write_kind s (bulleted text) = bulleted_item s text
  write_kind s (ordered digits text) = ordered_item s digits text
  write_kind s (quoted text) = (
    end_list s ++ (blockquote (format text) ∷ []),
    record { next = 0; in_bulleted_list = false; was_block_quote = true },
  )
  write_kind s (plain text) = (end_list s ++ (line (format text) ∷ []), no_lists)

  -- The rounds after the first, and the end of the list that is left open.
  unfoldable pub write_lines : Lists → List Bytes → List Piece
  write_lines s [] = end_list s
  write_lines s (l ∷ lines) =
      let (pieces, after) = write_kind s (kind_of l) in
      line_break s ++ (pieces ++ write_lines after lines)

  unfoldable pub parse_wa_sub_formatting_to_html : Bytes → List Piece
  parse_wa_sub_formatting_to_html text =
      let (first, rest) = split_lines text in
      let (pieces, after) = write_kind no_lists (kind_of first) in pieces ++ write_lines after rest
