-- ===== src/Common/Keys.antt =====
-- Go's `==` on the values that serve as map keys and identifiers. A Go string is its list of bytes.
use Prim.Native.Nat.{ℕ}
use mathlib.Core.Path.{◌≡◌, refl}
use mathlib.Core.Logic.{◌↔◌}
use mathlib.Core.Bool.{Bool, true, false}
use mathlib.Core.List.{List}
use native.Mathlib.Decide.{ℕ_discrete}

abbrev pub Bytes : Type 0
Bytes = List ℕ

unfoldable pub Bytes-discrete : Discrete Bytes
unfolding ℕ_discrete
Bytes-discrete = hlevel ℕ_discrete

module _ {ℓ} {A : Type ℓ} (d : Discrete A) where
  unfoldable pub beq : A → A → Bool
  beq a b = elim (d a b) [ yes e ↦ true | no n ↦ false ]

  pub beq_iff : (a b : A) → (beq a b ≡ true) ↔ (a ≡ b)
  unfolding beq
  beq_iff a b = elim (d a b) as (λ x. ((elim x [ yes e ↦ true | no n ↦ false ]) ≡ true) ↔ (a ≡ b)) [
    | yes e ↦ (λ _. e, λ _. refl)
    | no n ↦ (λ h. cc, λ e. absurd (n e))
  ]

  pub beq_refl : (a : A) → beq a a ≡ true
  beq_refl a = (beq_iff a a).1 refl
