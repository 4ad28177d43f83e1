-- ===== src/Msgconv/WaText/Nesting.antt =====
-- How the tags that pkg/msgconv/wa-text.go writes are nested.
use whatsapp_matrix_bridge.Common.{
  ◌≡◌, refl, false, inl, inr, Option, none, some, List, [], ◌∷◌, ◌++◌, ltb, if◌then◌else◌, Bytes,
  arith, ◌&&◌, Option-cases, ◌∙◌,
}
use whatsapp_matrix_bridge.Msgconv.WaText.{
  Piece, br, ul, end_ul, end_ol, ol, li, blockquote, line, pre_code, code, Kind, bulleted, ordered,
  quoted, plain, kind_of, Lists, no_lists, end_list, bulleted_item, ordered_item, write_kind,
  line_break, write_lines, split_lines, parse_wa_sub_formatting_to_html,
}
use whatsapp_matrix_bridge.Msgconv.WaText.Blocks.{
  write_text, write_code, parse_wa_formatting_to_html,
}
use whatsapp_matrix_bridge.Msgconv.WaText.Blocks.Sections.{
  WritesSections, written, parse_wa_formatting_to_html-Sections,
}

pub data Context : Type 0 where
  outside in_ul in_ol : Context

-- Where a piece may stand and what is open behind it: lists are not nested, an item stands in a
-- list, a value only in an ordered one, and all else outside of lists.
unfoldable pub enter : Piece → Context → Option Context
enter ul outside = some in_ul
enter end_ul in_ul = some outside
enter (ol start) outside = some in_ol
enter end_ol in_ol = some outside
enter (li none text) in_ul = some in_ul
enter (li value text) in_ol = some in_ol
enter br outside = some outside
enter (blockquote text) outside = some outside
enter (line text) outside = some outside
enter (pre_code text) outside = some outside
enter (code text) outside = some outside
enter p c = none

unfoldable pub enter_all : List Piece → Context → Option Context
enter_all [] c = some c
enter_all (p ∷ ps) c = elim (enter p c) [ none ↦ none | some d ↦ enter_all ps d ]

-- Every list that is opened is closed by its own tag.
abbrev pub IsNested : List Piece → Type 0
IsNested ps = enter_all ps outside ≡ some outside

enter_all-append :
    (ps qs : List Piece) (c d : Context)
    → enter_all ps c ≡ some d
    → enter_all (ps ++ qs) c ≡ enter_all qs d
unfolding enter_all
enter_all-append [] qs c d h = cc
enter_all-append (p ∷ ps) qs c d h = elim (Option-cases (enter p c)) [
  | inl e ↦ ground (arith, h, e)
  | inr (b, e) ↦ ground (arith, h, e, enter_all-append ps qs b d)
]

context : Lists → Context
context s = if ltb 0 s.next then in_ol else if s.in_bulleted_list then in_ul else outside

IsProper : Lists → Type 0
IsProper s = (ltb 0 s.next && s.in_bulleted_list) ≡ false

line_break-lem : (s : Lists) → enter_all (line_break s) (context s) ≡ some (context s)
unfolding line_break enter_all enter context
line_break-lem s = ground arith

end_list-lem : (s : Lists) → IsProper s → enter_all (end_list s) (context s) ≡ some outside
unfolding end_list enter_all enter context IsProper
end_list-lem s h = ground arith

module _ (format : Bytes → Bytes) where
  write_kind-lem :
      (s : Lists) (k : Kind)
      → IsProper s
      → IsProper (write_kind format s k).1
        × (enter_all (write_kind format s k).0 (context s)
            ≡ some (context (write_kind format s k).1))
  unfolding write_kind bulleted_item ordered_item end_list enter_all enter context IsProper
  write_kind-lem s (bulleted text) h = ground arith
  write_kind-lem s (ordered digits text) h = ground arith
  write_kind-lem s (quoted text) h = ground arith
  write_kind-lem s (plain text) h = ground arith

  write_lines-lem :
      (s : Lists) (ls : List Bytes)
      → IsProper s
      → enter_all (write_lines format s ls) (context s) ≡ some outside
  unfolding write_lines
  write_lines-lem s [] h = end_list-lem s h
  write_lines-lem s (l ∷ ls) h =
      let r = write_kind format s (kind_of l) in
      let (proper, written) = write_kind-lem s (kind_of l) h in
      enter_all-append (line_break s) (r.0 ++ write_lines format r.1 ls) _ _ (line_break-lem s)
      ∙ enter_all-append r.0 (write_lines format r.1 ls) _ _ written
      ∙ write_lines-lem r.1 ls proper

  sub_formatting-IsNested : (s : Bytes) → IsNested (parse_wa_sub_formatting_to_html format s)
  unfolding parse_wa_sub_formatting_to_html context IsProper
  sub_formatting-IsNested s =
      let r = write_kind format no_lists (kind_of (split_lines s).0) in
      let (proper, written) = write_kind-lem no_lists (kind_of (split_lines s).0) refl in
      enter_all-append r.0 (write_lines format r.1 (split_lines s).1) _ _ written
      ∙ write_lines-lem r.1 (split_lines s).1 proper

  write_text-IsNested : (s : Bytes) → IsNested (write_text format s)
  unfolding write_text enter_all
  write_text-IsNested [] = refl
  write_text-IsNested (c ∷ s) = sub_formatting-IsNested (c ∷ s)

  written-IsNested : (ss : List (Bytes × Bytes)) (t : Bytes) → IsNested (written format ss t)
  unfolding written write_code enter enter_all
  written-IsNested [] t = write_text-IsNested t
  written-IsNested ((prefix, content) ∷ ss) t = ground (
    arith,
    enter_all-append (write_text format prefix) (write_code format content ∷ written format ss t)
        outside outside (write_text-IsNested prefix),
    written-IsNested ss t,
  )

  -- parseWAFormattingToHTML returns for every text, and the tags that it writes are well nested:
  -- every list is closed by its own tag before another one opens, items stand in lists, those with
  -- a value in ordered ones, and line breaks, quotes, code and plain text outside of lists.
  pub parse_wa_formatting_to_html-IsNested :
      (s : Bytes)
      → (ps : List Piece) × (parse_wa_formatting_to_html format s ≡ some ps) × IsNested ps
  unfolding WritesSections
  parse_wa_formatting_to_html-IsNested s =
      let (ss, t, parsed, e) = parse_wa_formatting_to_html-Sections format s in
      (written format ss t, e, written-IsNested ss t)
