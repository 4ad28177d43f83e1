-- ===== src/Msgconv/WaText/Blocks/Sections.antt =====
-- What the loop of pkg/msgconv/wa-text.go over the code blocks takes the text for.
use whatsapp_matrix_bridge.Common.{
  ℕ, zero, suc, ◌≡◌, refl, ap, sym, ◌∙◌, ◌<◌, inl, inr, Option, none, some, List, [], ◌∷◌, ◌++◌,
  length, All, Bytes, arith, Option-cases,
}
use whatsapp_matrix_bridge.Msgconv.WaText.{Piece}
use whatsapp_matrix_bridge.Msgconv.WaText.Blocks.{
  fence, find_fence, code_block, write_text, write_code, write_blocks, parse_wa_formatting_to_html,
}
use whatsapp_matrix_bridge.Msgconv.WaText.Blocks.Fences.{
  IsContent, IsOpen, code_block-some, code_block-none, code_block-shorter,
}

-- A text of sections: each a prefix and the content of a code block, and a last text.
pub joined : List (Bytes × Bytes) → Bytes → Bytes
joined [] t = t
joined ((prefix, content) ∷ ss) t = prefix ++ (fence ++ (content ++ (fence ++ joined ss t)))

pub IsSection : Bytes × Bytes → Type 0
IsSection (prefix, content) = (find_fence prefix ≡ none) × IsContent content

-- What the sections of a text are, without reference to the loop.
pub record IsParse (s : Bytes) (ss : List (Bytes × Bytes)) (t : Bytes) : Type 0 where
  pub all_of_it : joined ss t ≡ s
  pub sections : All IsSection ss
  pub last : IsOpen t

module _ (format : Bytes → Bytes) where
  -- The output for given sections.
  unfoldable pub written : List (Bytes × Bytes) → Bytes → List Piece
  written [] t = write_text format t
  written ((prefix, content) ∷ ss) t =
      write_text format prefix ++ (write_code format content ∷ written ss t)

  unfoldable pub WritesSections : Bytes → Option (List Piece) → Type 0
  WritesSections s o =
      (ss : List (Bytes × Bytes)) × (t : Bytes) × IsParse s ss t × (o ≡ some (written ss t))

  write_blocks-Sections :
      (fuel : ℕ) (s : Bytes) → length s < fuel → WritesSections s (write_blocks format fuel s)
  unfolding write_blocks WritesSections joined IsSection written
  write_blocks-Sections zero s h = ground arith
  write_blocks-Sections (suc fuel) s h = elim (Option-cases (code_block s)) [
    | inl e ↦ (
      [],
      s,
      record { all_of_it = refl; sections = tt; last = code_block-none s e },
      ground (arith, e),
    )
    | inr ((p, c, r), e) ↦
        let (joins, lacks, content) = code_block-some s e in
        let (ss, t, parsed, rest) =
          write_blocks-Sections fuel r (ground (arith, h, code_block-shorter s p c r joins)) in
        (
          (p, c) ∷ ss,
          t,
          record {
            all_of_it = ap (λ x. p ++ (fence ++ (c ++ (fence ++ x)))) parsed.all_of_it ∙ sym joins;
            sections = ((lacks, content), parsed.sections);
            last = parsed.last;
          },
          ground (arith, e, rest),
        )
  ]

  -- parseWAFormattingToHTML returns for every text, and its output is that of a division of the
  -- whole text into sections: each a prefix without a fence (three backticks) and the content of a
  -- code block, which is not blank and has no fence or is blank up to its only fence, and last a
  -- text in which no further code block ends.
  pub parse_wa_formatting_to_html-Sections :
      (s : Bytes) → WritesSections s (parse_wa_formatting_to_html format s)
  unfolding parse_wa_formatting_to_html
  parse_wa_formatting_to_html-Sections s = write_blocks-Sections (suc (length s)) s (omega arith)

  write_blocks_same :
      (f g : ℕ) (s : Bytes)
      → length s < f
      → length s < g
      → write_blocks format f s ≡ write_blocks format g s
  unfolding write_blocks
  write_blocks_same zero g s h k = ground arith
  write_blocks_same (suc f) zero s h k = ground arith
  write_blocks_same (suc f) (suc g) s h k = elim (Option-cases (code_block s)) [
    | inl e ↦ ground (arith, e)
    | inr ((p, c, r), e) ↦
        let shorter = code_block-shorter s p c r (code_block-some s e).0 in
        let same =
          write_blocks_same f g r (ground (arith, h, shorter)) (ground (arith, k, shorter)) in
        ground (arith, e, same)
  ]

  -- The loop over the code blocks ends: parseWAFormattingToHTML returns for every text, and any
  -- number of rounds greater than the length of the text gives the same output.
  pub parse_wa_formatting_to_html_returns :
      (s : Bytes)
      → (ps : List Piece) × (parse_wa_formatting_to_html format s ≡ some ps)
        × ((fuel : ℕ) → length s < fuel → write_blocks format fuel s ≡ some ps)
  unfolding parse_wa_formatting_to_html WritesSections
  parse_wa_formatting_to_html_returns s =
      let (ss, t, parsed, e) = parse_wa_formatting_to_html-Sections s in
      (written ss t, e, λ fuel h. write_blocks_same fuel (suc (length s)) s h (omega arith) ∙ e)
