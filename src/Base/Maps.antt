-- ===== src/Base/Maps.antt =====
-- QHash<int, T> as an association list with at most one entry for each key.
use Prim.Native.Nat.{ℕ}
use mathlib.Core.Path.{◌≡◌}
use mathlib.Core.List.{List, [], ◌∷◌}
use mathlib.Core.Option.{Option, none, some}
use native.Mathlib.Omega.{arith}
use zephyrftp.Base.Tests.{◌==◌, if◌then◌else◌}

module _ {ℓ} {V : Type ℓ} where
  -- QHash::value
  unfoldable pub lookup : ℕ → List (ℕ × V) → Option V
  lookup key [] = none
  lookup key (entry ∷ rest) =
      let further = lookup key rest in if key == entry.0 then some entry.1 else further

  -- QHash::insert replaces the value of a key that is present.
  unfoldable pub insert : ℕ → V → List (ℕ × V) → List (ℕ × V)
  insert key new [] = (key, new) ∷ []
  insert key new (entry ∷ rest) =
      let further = insert key new rest in
      if key == entry.0 then (key, new) ∷ rest else entry ∷ further

  -- QHash::remove
  unfoldable pub erase : ℕ → List (ℕ × V) → List (ℕ × V)
  erase key [] = []
  erase key (entry ∷ rest) =
      let further = erase key rest in if key == entry.0 then further else entry ∷ further

  pub lookup-insert :
      (at key : ℕ) (new : V) (entries : List (ℕ × V))
      → lookup key (insert at new entries) ≡ (if at == key then some new else lookup key entries)
  unfolding lookup insert
  lookup-insert at key new [] = ground arith
  lookup-insert at key new (entry ∷ rest) = ground (arith, lookup-insert at key new rest)

  pub lookup-erase :
      (at key : ℕ) (entries : List (ℕ × V))
      → lookup key (erase at entries) ≡ (if at == key then none else lookup key entries)
  unfolding lookup erase
  lookup-erase at key [] = ground arith
  lookup-erase at key (entry ∷ rest) = ground (arith, lookup-erase at key rest)
