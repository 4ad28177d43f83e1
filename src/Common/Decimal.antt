-- ===== src/Common/Decimal.antt =====
-- `strconv.ParseUint(s, 10, 64)` and `strconv.FormatUint(n, 10)` of Go's standard library.
use Prim.Native.Nat.{ℕ, zero, suc, ◌+◌, ◌-◌, ◌*◌, ◌/◌, ◌%◌, ◌^◌, ◌<◌, ◌≤◌}
use mathlib.Core.Path.{◌≡◌, refl, ◌∙◌}
use mathlib.Core.Logic.{◌≢◌}
use mathlib.Core.Bool.{Bool, true, false, ◌&&◌}
use mathlib.Core.Option.{Option, none, some}
use mathlib.Core.List.{[], ◌∷◌}
use native.Mathlib.Omega.{arith}
use whatsapp_matrix_bridge.Common.Tests.{ltb, leb, if◌then◌else◌}
use whatsapp_matrix_bridge.Common.Keys.{Bytes}
use whatsapp_matrix_bridge.Common.Text.{codes}

abbrev is_digit : ℕ → Bool
is_digit c = leb b'0' c && leb c b'9'

-- The number that the digits spell behind `acc`; `none` where a byte is no digit.
unfoldable pub scan : ℕ → Bytes → Option ℕ
scan acc [] = some acc
scan acc (c ∷ s) = elim (is_digit c) [ true ↦ scan (acc * 10 + (c - b'0')) s | false ↦ none ]

-- `none` stands for the error: an empty text, a byte that is no digit, or 2 ^ 64 and more.
unfoldable pub parse_uint : Bytes → Option ℕ
unfolding scan
parse_uint [] = none
parse_uint (c ∷ s) = elim (scan 0 (c ∷ s)) [
  | none ↦ none
  | some n ↦ if ltb n (2 ^ 64) then some n else none
]

unfoldable pub spell : ℕ → ℕ → Bytes → Bytes
spell zero n out = out
spell (suc fuel) n out =
    let digit = b'0' + n % 10 in
    let rest = spell fuel (n / 10) (digit ∷ out) in if ltb n 10 then digit ∷ out else rest

-- Twenty digits are enough for 64 bits.
unfoldable pub format_uint : ℕ → Bytes
format_uint n = spell 20 n []

scan-spell : (fuel n : ℕ) (out : Bytes) → n < 10 ^ fuel → scan 0 (spell fuel n out) ≡ scan n out
unfolding scan spell
scan-spell zero n out h = let e : n ≡ 0 = omega arith in rw e
scan-spell (suc fuel) n out h =
    ground (arith, scan-spell fuel (n / 10) ((b'0' + n % 10) ∷ out) (omega arith))

spell-ne-nil : (fuel n : ℕ) (out : Bytes) → out ≢ [] → spell fuel n out ≢ []
unfolding spell
spell-ne-nil zero n out h = h
spell-ne-nil (suc fuel) n out h =
    ground (arith, spell-ne-nil fuel (n / 10) ((b'0' + n % 10) ∷ out) (λ e. cc))

spell-suc-ne-nil : (fuel n : ℕ) (out : Bytes) → spell (suc fuel) n out ≢ []
unfolding spell
spell-suc-ne-nil fuel n out =
    ground (arith, spell-ne-nil fuel (n / 10) ((b'0' + n % 10) ∷ out) (λ e. cc))

scan-nil : (n : ℕ) → scan n [] ≡ some n
unfolding scan
scan-nil n = refl

parse_uint-scan :
    (s : Bytes) (n : ℕ) → s ≢ [] → scan 0 s ≡ some n → n < 2 ^ 64 → parse_uint s ≡ some n
unfolding parse_uint
parse_uint-scan [] n h e lt = absurd (h refl)
parse_uint-scan (c ∷ s) n h e lt = ground arith

-- Every 64-bit number is read back from its decimal form.
pub parse_uint-format_uint : (n : ℕ) → n < 2 ^ 64 → parse_uint (format_uint n) ≡ some n
unfolding format_uint
parse_uint-format_uint n h =
    parse_uint-scan (spell 20 n []) n (spell-suc-ne-nil 19 n [])
      (scan-spell 20 n [] (omega arith) ∙ scan-nil n) h

-- A number that was read fits 64 bits.
pub parse_uint_bound : (s : Bytes) (n : ℕ) → parse_uint s ≡ some n → n < 2 ^ 64
unfolding parse_uint
parse_uint_bound [] n e = cc
parse_uint_bound (c ∷ s) n e = ground arith

pub format_wide : format_uint 18446744073709551615 ≡ codes "18446744073709551615"
unfolding format_uint spell
format_wide = refl

-- What is read as a number starts with a digit.
pub parse_uint-digit : (c : ℕ) (s : Bytes) (n : ℕ) → parse_uint (c ∷ s) ≡ some n → b'0' ≤ c
unfolding parse_uint scan
parse_uint-digit c s n e = ground arith

pub parse_uint-nil : parse_uint [] ≡ none
unfolding parse_uint
parse_uint-nil = refl
