-- ===== src/Base/Maps.antt =====
-- Go maps with string keys, as association lists. The program never ranges over such a map, so
-- the order of the entries is not observed.
use mathlib.Core.Path.{◌≡◌}
use mathlib.Core.Option.{Option, none, some}
use mathlib.Core.List.{List, [], ◌∷◌}
use native.Mathlib.Omega.{arith}
use nodefoundry.Base.Tests.{if◌then◌else◌}
use nodefoundry.Base.Strings.{Text, text_eq, text_eq_iff}

abbrev pub GoMap {ℓ} : Type ℓ → Type ℓ
GoMap V = List (Text × V)

module _ {ℓ} {V : Type ℓ} where
  -- `v, ok := m[k]`
  unfoldable pub lookup : GoMap V → Text → Option V
  lookup [] k = none
  lookup ((j, v) ∷ m) k = if text_eq j k then some v else lookup m k

  -- `delete(m, k)`
  unfoldable pub erase : GoMap V → Text → GoMap V
  erase [] k = []
  erase ((j, v) ∷ m) k = let rest = erase m k in if text_eq j k then rest else (j, v) ∷ rest

  -- `m[k] = v`
  unfoldable pub insert : GoMap V → Text → V → GoMap V
  unfolding erase
  insert m k v = (k, v) ∷ erase m k

  pub lookup-erase :
      (m : GoMap V) (k j : Text) → lookup (erase m k) j ≡ (if text_eq k j then none else lookup m j)
  unfolding lookup erase
  lookup-erase [] k j = ground arith
  lookup-erase ((i, v) ∷ m) k j =
      ground (arith, lookup-erase m k j, text_eq_iff i k, text_eq_iff i j, text_eq_iff k j)

  pub lookup-insert :
      (m : GoMap V) (k j : Text) (v : V)
      → lookup (insert m k v) j ≡ (if text_eq k j then some v else lookup m j)
  unfolding lookup insert
  lookup-insert m k j v = ground (arith, lookup-erase m k j)

pub ruleset map_laws = (lookup-erase, lookup-insert)
