-- ===== src/Base/Maps.antt =====
-- What a Go map holds after an assignment, and maps in which a key stands once.
use Prim.Native.String.{String}
use mathlib.Core.Path.{◌≡◌, refl}
use mathlib.Core.Logic.{inl, inr}
use mathlib.Core.Bool.{Bool, true, false}
use mathlib.Core.Option.{none, some}
use mathlib.Core.List.{[], ◌∷◌}
use native.Mathlib.Omega.{arith}
use text.Mathlib.Text.{◌==◌}
use text.Mathlib.TextEquality.{eq_iff}
use rhpam_dev_operator.Base.Branch.{if◌then◌else◌, Bool-cases}
use rhpam_dev_operator.Base.Lists.{Dict, lookup, insert}

module _ {ℓ} {V : Type ℓ} where
  pub lookup-insert :
      (j k : String) (v : V) (m : Dict V)
      → lookup j (insert k v m) ≡ (if j == k then some v else lookup j m)
  lookup-insert j k v [] = refl
  lookup-insert j k v ((i, w) ∷ m) =
      ground (arith, eq_iff k j, eq_iff j k, eq_iff k i, eq_iff j i, lookup-insert j k v m)

  abbrev pub is_key : Dict V → String → Bool
  is_key m k = elim (lookup k m) [ none ↦ false | some v ↦ true ]

  abbrev pub Unique : Dict V → Type 0
  Unique [] = Unit
  Unique ((k, v) ∷ m) = (is_key m k ≡ false) × Unique m

  pub Unique-insert : (k : String) (v : V) (m : Dict V) → Unique m → Unique (insert k v m)
  Unique-insert k v [] u = (refl, tt)
  Unique-insert k v ((j, w) ∷ m) (new, u) = elim (Bool-cases (k == j)) [
    | inl same ↦ rw same ((rw ((eq_iff k j).0 same) new), u)
    | inr other ↦
        rw other
          (ground (arith, lookup-insert j k v m, eq_iff j k, eq_iff k j), Unique-insert k v m u)
  ]
