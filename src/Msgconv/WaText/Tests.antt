-- ===== src/Msgconv/WaText/Tests.antt =====
-- The functions of pkg/msgconv/wa-text.go at concrete texts.
use whatsapp_matrix_bridge.Common.{ℕ, ◌≡◌, refl, none, some, [], ◌∷◌, List, length, Bytes, ◌<◌}
use whatsapp_matrix_bridge.Common.Text.{codes, has_prefix}
use whatsapp_matrix_bridge.Msgconv.WaText.{
  Piece, piece_html, html_of, split_lines, atoi_from, match_item, kind_of, end_list, escape_string,
  line_break, write_kind, write_lines, parse_wa_sub_formatting_to_html,
}
use whatsapp_matrix_bridge.Msgconv.WaText.Blocks.{
  find_fence, space_length, is_blank_from, close_block, code_block, write_text, write_code,
  write_blocks, parse_wa_formatting_to_html,
}
use whatsapp_matrix_bridge.Msgconv.WaText.Blocks.Sections.{
  WritesSections, parse_wa_formatting_to_html-Sections, parse_wa_formatting_to_html_returns,
}
use whatsapp_matrix_bridge.Msgconv.WaText.Nesting.{IsNested, parse_wa_formatting_to_html-IsNested}
use whatsapp_matrix_bridge.Msgconv.WaText.Numbering.{
  listed_html, shown, shown-parse_wa_sub_formatting_to_html,
}
use mathlib.Core.List.{map}

abbrev identity : Bytes → Bytes
identity t = t

abbrev lists : Bytes
lists = codes "a\n* b\n3. c\n5. d\n> e"

lists_html :
    html_of (parse_wa_sub_formatting_to_html identity lists)
    ≡ codes
        "a<br><ul><li>b</li></ul><ol start=\"3\"><li>c</li><li value=\"5\">d</li></ol><blockquote>e</blockquote>"
unfolding parse_wa_sub_formatting_to_html html_of piece_html split_lines atoi_from match_item
    kind_of end_list line_break write_kind write_lines has_prefix
lists_html = refl

abbrev blocks : Bytes
blocks = codes "x ```y\nz``` ``` ```w"

blocks_pieces :
    parse_wa_formatting_to_html identity blocks
    ≡ some (
        Piece.line (codes "x ")
        ∷ Piece.pre_code (codes "y\nz")
        ∷ Piece.line (codes " ``` ```w")
        ∷ [])
unfolding parse_wa_formatting_to_html parse_wa_sub_formatting_to_html html_of piece_html split_lines
    atoi_from match_item kind_of end_list line_break write_kind write_lines has_prefix find_fence
    space_length is_blank_from close_block code_block write_text write_code write_blocks
    escape_string
blocks_pieces = refl

parse_wa_formatting_to_html-Sections_example :
    WritesSections identity blocks (parse_wa_formatting_to_html identity blocks)
parse_wa_formatting_to_html-Sections_example = parse_wa_formatting_to_html-Sections identity blocks

parse_wa_formatting_to_html_returns_example :
    (ps : List Piece) × (parse_wa_formatting_to_html identity blocks ≡ some ps)
    × ((fuel : ℕ) → length blocks < fuel → write_blocks identity fuel blocks ≡ some ps)
parse_wa_formatting_to_html_returns_example = parse_wa_formatting_to_html_returns identity blocks

parse_wa_formatting_to_html-IsNested_example :
    (ps : List Piece) × (parse_wa_formatting_to_html identity blocks ≡ some ps) × IsNested ps
parse_wa_formatting_to_html-IsNested_example = parse_wa_formatting_to_html-IsNested identity blocks

shown-parse_wa_sub_formatting_to_html_example :
    shown none (parse_wa_sub_formatting_to_html identity lists)
    ≡ listed_html identity (split_lines lists).0 ∷ map (listed_html identity) (split_lines lists).1
shown-parse_wa_sub_formatting_to_html_example = shown-parse_wa_sub_formatting_to_html identity lists
