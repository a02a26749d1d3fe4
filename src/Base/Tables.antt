-- ===== src/Base/Tables.antt =====
-- `std::map` with text keys, as an association list; functions on numbers.
use Prim.Native.Nat.{ℕ}
use mathlib.Core.Path.{◌≡◌, refl}
use mathlib.Core.List.{List, [], ◌∷◌}
use mathlib.Core.Option.{Option, none, some}
use native.Mathlib.Omega.{arith}
use worker_informer.Base.Tests.{◌==◌, if◌then◌else◌}
use worker_informer.Base.Text.{Bytes, equal, equal_iff}

-- A function with another value at one number.
abbrev pub updated {ℓ} : {A : Type ℓ} → (ℕ → A) → ℕ → A → ℕ → A
updated f i a j = if j == i then a else f j

module _ {ℓ} {V : Type ℓ} where
  unfoldable pub lookup : Bytes → List (Bytes × V) → Option V
  lookup name [] = none
  lookup name (entry ∷ rest) = if equal entry.0 name then some entry.1 else lookup name rest

  unfoldable pub insert : Bytes → V → List (Bytes × V) → List (Bytes × V)
  insert name value [] = (name, value) ∷ []
  insert name value (entry ∷ rest) =
      if equal entry.0 name then (name, value) ∷ rest else entry ∷ insert name value rest

  pub lookup-insert :
      (table : List (Bytes × V)) (name asked : Bytes) (value : V)
      → lookup asked (insert name value table)
        ≡ (if equal name asked then some value else lookup asked table)
  unfolding lookup insert
  lookup-insert [] name asked value = refl
  lookup-insert (entry ∷ rest) name asked value = ground (
    arith,
    equal_iff entry.0 name,
    equal_iff entry.0 asked,
    equal_iff name asked,
    lookup-insert rest name asked value,
  )
