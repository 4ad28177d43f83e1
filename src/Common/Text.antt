-- ===== src/Common/Text.antt =====
-- The functions of Go's `strings` that the program calls, on lists of bytes.
use Prim.Native.Char.{code}
use Prim.Native.String.{String}
use Prim.Native.Nat.{ℕ}
use mathlib.Core.Path.{◌≡◌, refl}
use mathlib.Core.Logic.{◌≢◌}
use mathlib.Core.Bool.{Bool, true, false, ◌&&◌}
use mathlib.Core.Option.{Option, none, some}
use mathlib.Core.List.{[], ◌∷◌, ◌++◌}
use native.Mathlib.Omega.{arith}
use whatsapp_matrix_bridge.Common.Tests.{◌==◌, if◌then◌else◌}
use whatsapp_matrix_bridge.Common.Lists.{All}
use whatsapp_matrix_bridge.Common.Keys.{Bytes}

-- The bytes of an ASCII literal.
abbrev pub codes : String → Bytes
codes String.[] = []
codes (String.◌∷◌ c s) = code c ∷ codes s

-- `strings.HasPrefix`, with the prefix first.
unfoldable pub has_prefix : Bytes → Bytes → Bool
has_prefix [] s = true
has_prefix (p ∷ ps) [] = false
has_prefix (p ∷ ps) (c ∷ s) = p == c && has_prefix ps s

-- `strings.TrimPrefix`, with the prefix first: the text unchanged where it lacks the prefix.
strip : Bytes → Bytes → Bytes
strip [] s = s
strip (p ∷ ps) [] = []
strip (p ∷ ps) (c ∷ s) = strip ps s

unfoldable pub trim_prefix : Bytes → Bytes → Bytes
unfolding strip
trim_prefix p s = if has_prefix p s then strip p s else s

pub has_prefix-append : (p s : Bytes) → has_prefix p (p ++ s) ≡ true
unfolding has_prefix
has_prefix-append [] s = refl
has_prefix-append (c ∷ p) s = ground (arith, has_prefix-append p s)

strip-append : (p s : Bytes) → strip p (p ++ s) ≡ s
unfolding strip
strip-append [] s = refl
strip-append (c ∷ p) s = strip-append p s

pub trim_prefix-append : (p s : Bytes) → trim_prefix p (p ++ s) ≡ s
unfolding trim_prefix
trim_prefix-append p s = ground (arith, has_prefix-append p s, strip-append p s)

abbrev pub Lacks : ℕ → Bytes → Type 0
Lacks b = All (λ c. c ≢ b)

-- The text before and after the first `sep`, if there is one.
unfoldable pub cut : ℕ → Bytes → Option (Bytes × Bytes)
cut sep [] = none
cut sep (c ∷ s) =
    if c == sep
    then some ([], s)
    else elim (cut sep s) [ none ↦ none | some (front, back) ↦ some (c ∷ front, back) ]

pub cut-append : (sep : ℕ) (p s : Bytes) → Lacks sep p → cut sep (p ++ (sep ∷ s)) ≡ some (p, s)
unfolding cut
cut-append sep [] s h = ground arith
cut-append sep (c ∷ p) s (hc, hp) = ground (arith, cut-append sep p s hp)
