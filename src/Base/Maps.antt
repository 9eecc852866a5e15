-- ===== src/Base/Maps.antt =====
-- Go maps with texts for keys.
use Prim.Native.String.{String}
use mathlib.Core.Path.{◌≡◌}
use mathlib.Core.Option.{Option, none, some}
use mathlib.Core.List.{List, [], ◌∷◌}
use native.Mathlib.Omega.{arith}
use text.Mathlib.Text.{◌==◌}
use text.Mathlib.TextEquality.{eq_iff}
use certlight.Base.Tests.{if◌then◌else◌}

-- A Go map with texts for keys: its entries, each key once.
abbrev pub GoMap {ℓ} : Type ℓ → Type ℓ
GoMap V = List (String × V)

module _ {ℓ} {V : Type ℓ} where
  -- `m[wanted]`
  unfoldable pub lookup : String → GoMap V → Option V
  lookup wanted [] = none
  lookup wanted ((found, value) ∷ entries) =
      let later = lookup wanted entries in if found == wanted then some value else later

  -- `delete(m, gone)`
  unfoldable pub without : String → GoMap V → GoMap V
  without gone [] = []
  without gone ((found, value) ∷ entries) =
      let rest = without gone entries in if found == gone then rest else (found, value) ∷ rest

  -- `m[new] = value`
  unfoldable pub insert : String → V → GoMap V → GoMap V
  unfolding without
  insert new value entries = (new, value) ∷ without new entries

module _ {ℓ} {V : Type ℓ} where
  pub lookup-without :
      (k j : String) (m : GoMap V) → lookup j (without k m) ≡ (if k == j then none else lookup j m)
  unfolding lookup without
  lookup-without k j [] = ground arith
  lookup-without k j ((i, v) ∷ m) =
      ground (arith, lookup-without k j m, eq_iff i k, eq_iff i j, eq_iff k j)

  -- A key that was just set has its value, and the others have theirs.
  pub lookup-insert :
      (new other : String) (value : V) (entries : GoMap V)
      → lookup other (insert new value entries)
        ≡ (if new == other then some value else lookup other entries)
  unfolding lookup insert
  lookup-insert new other value entries = ground (arith, lookup-without new other entries)
