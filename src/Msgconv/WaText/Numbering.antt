-- ===== src/Msgconv/WaText/Numbering.antt =====
-- What a browser shows of the lines that pkg/msgconv/wa-text.go writes.
use whatsapp_matrix_bridge.Common.{
  ℕ, suc, ◌≡◌, ap, ◌∙◌, Option, none, some, List, [], ◌∷◌, ◌++◌, map, ltb, if◌then◌else◌, Bytes,
  arith,
}
use whatsapp_matrix_bridge.Msgconv.WaText.{
  Piece, br, ul, end_ul, end_ol, ol, li, blockquote, line, pre_code, code, atoi, Kind, bulleted,
  ordered, quoted, plain, kind_of, Lists, no_lists, end_list, bulleted_item, ordered_item,
  write_kind, line_break, write_lines, split_lines, parse_wa_sub_formatting_to_html,
}

-- The number of an item: its own value, or that which is next in its list.
abbrev pub number : ℕ → Option Bytes → ℕ
number n none = n
number n (some digits) = atoi digits

-- The texts that are shown, in order, with the numbers of the items of ordered lists. The first
-- argument is the number that the next item has, `none` outside of ordered lists.
unfoldable pub shown : Option ℕ → List Piece → List (Option ℕ × Bytes)
shown n [] = []
shown n (ol start ∷ ps) = shown (some (number 1 start)) ps
shown n (end_ol ∷ ps) = shown none ps
shown (some n) (li value text ∷ ps) =
    (some (number n value), text) ∷ shown (some (suc (number n value))) ps
shown none (li value text ∷ ps) = (none, text) ∷ shown none ps
shown n (blockquote text ∷ ps) = (none, text) ∷ shown n ps
shown n (line text ∷ ps) = (none, text) ∷ shown n ps
shown n (pre_code text ∷ ps) = (none, text) ∷ shown n ps
shown n (code text ∷ ps) = (none, text) ∷ shown n ps
shown n (br ∷ ps) = shown n ps
shown n (ul ∷ ps) = shown n ps
shown n (end_ul ∷ ps) = shown n ps

-- The number and the text of a line as WhatsApp has it.
abbrev pub listed : Kind → Option ℕ × Bytes
listed (bulleted text) = (none, text)
listed (ordered digits text) = (some (atoi digits), text)
listed (quoted text) = (none, text)
listed (plain text) = (none, text)

next_of : Lists → Option ℕ
next_of s = if ltb 0 s.next then some s.next else none

line_break-lem :
    (s : Lists) (ps : List Piece) (n : Option ℕ) → shown n (line_break s ++ ps) ≡ shown n ps
unfolding line_break shown
line_break-lem s ps none = ground arith
line_break-lem s ps (some n) = ground arith

module _ (format : Bytes → Bytes) where
  abbrev pub listed_html : Bytes → Option ℕ × Bytes
  listed_html l = ((listed (kind_of l)).0, format (listed (kind_of l)).1)

  write_kind-lem :
      (s : Lists) (k : Kind) (ps : List Piece)
      → shown (next_of s) ((write_kind format s k).0 ++ ps)
        ≡ ((listed k).0, format (listed k).1) ∷ shown (next_of (write_kind format s k).1) ps
  unfolding write_kind bulleted_item ordered_item end_list shown next_of
  write_kind-lem s (bulleted text) ps = ground arith
  write_kind-lem s (ordered digits text) ps = ground arith
  write_kind-lem s (quoted text) ps = ground arith
  write_kind-lem s (plain text) ps = ground arith

  end_list-lem : (s : Lists) → shown (next_of s) (end_list s) ≡ []
  unfolding end_list shown next_of
  end_list-lem s = ground arith

  write_lines-lem :
      (s : Lists) (ls : List Bytes)
      → shown (next_of s) (write_lines format s ls) ≡ map listed_html ls
  unfolding write_lines
  write_lines-lem s [] = end_list-lem s
  write_lines-lem s (l ∷ ls) =
      let r = write_kind format s (kind_of l) in
      line_break-lem s (r.0 ++ write_lines format r.1 ls) (next_of s)
      ∙ write_kind-lem s (kind_of l) (write_lines format r.1 ls)
      ∙ ap (◌∷◌ (listed_html l)) (write_lines-lem r.1 ls)

  -- What a browser shows of the lines of a text is what they say: every line once, in order, with
  -- its text formatted, and with its own number exactly where it is an item of an ordered list,
  -- whatever start and value attributes were left out.
  pub shown-parse_wa_sub_formatting_to_html :
      (s : Bytes)
      → shown none (parse_wa_sub_formatting_to_html format s)
        ≡ listed_html (split_lines s).0 ∷ map listed_html (split_lines s).1
  unfolding parse_wa_sub_formatting_to_html next_of
  shown-parse_wa_sub_formatting_to_html s =
      let r = write_kind format no_lists (kind_of (split_lines s).0) in
      write_kind-lem no_lists (kind_of (split_lines s).0) (write_lines format r.1 (split_lines s).1)
      ∙ ap (◌∷◌ (listed_html (split_lines s).0)) (write_lines-lem r.1 (split_lines s).1)
