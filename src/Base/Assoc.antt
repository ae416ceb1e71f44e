-- ===== src/Base/Assoc.antt =====
-- Hash maps, as association lists over a test for the same key. Their order is not specified, and
-- nothing here depends on it.
use mathlib.Core.Path.{◌≡◌}
use mathlib.Core.Logic.{◌↔◌, inl, inr}
use mathlib.Core.Bool.{Bool, true}
use mathlib.Core.List.{List, [], ◌∷◌}
use mathlib.Core.Option.{Option, none, some}
use native.Mathlib.Omega.{arith}
use fanotify_fid.Base.Tests.{if◌then◌else◌, Bool-cases}

module _ {ℓ κ} {K : Type ℓ} {V : Type κ} (same : K → K → Bool) where
  abbrev pub lookup : K → List (K × V) → Option V
  lookup k [] = none
  lookup k ((j, v) ∷ m) = let rest = lookup k m in if same k j then some v else rest

  abbrev pub remove : K → List (K × V) → List (K × V)
  remove k [] = []
  remove k ((j, v) ∷ m) = let rest = remove k m in if same k j then rest else (j, v) ∷ rest

  abbrev pub insert : K → V → List (K × V) → List (K × V)
  insert k v m = (k, v) ∷ remove k m

  -- Every key stands once.
  abbrev pub DistinctKeys : List (K × V) → Type κ
  DistinctKeys [] = Unit
  DistinctKeys ((k, v) ∷ m) = (lookup k m ≡ none) × DistinctKeys m

module _ {ℓ κ} {K : Type ℓ} {V : Type κ} (same : K → K → Bool)
    (same_iff : (a b : K) → (same a b ≡ true) ↔ (a ≡ b)) where
  pub lookup-remove :
      (j k : K) (m : List (K × V))
      → lookup same j (remove same k m) ≡ (if same j k then none else lookup same j m)
  lookup-remove j k [] = ground arith
  lookup-remove j k ((i, v) ∷ m) =
      ground (arith, lookup-remove j k m, same_iff j k, same_iff k i, same_iff j i)

  pub lookup-insert :
      (j k : K) (v : V) (m : List (K × V))
      → lookup same j (insert same k v m) ≡ (if same j k then some v else lookup same j m)
  lookup-insert j k v m = ground (arith, lookup-remove j k m)

  pub remove-DistinctKeys :
      (k : K) (m : List (K × V)) → DistinctKeys same m → DistinctKeys same (remove same k m)
  remove-DistinctKeys k [] d = tt
  remove-DistinctKeys k ((j, v) ∷ m) (new, d) = elim (Bool-cases (same k j)) [
    | inl hit ↦ rw hit (remove-DistinctKeys k m d)
    | inr miss ↦ rw miss (ground (arith, lookup-remove j k m, new), remove-DistinctKeys k m d)
  ]

  pub insert-DistinctKeys :
      (k : K) (v : V) (m : List (K × V))
      → DistinctKeys same m
      → DistinctKeys same (insert same k v m)
  insert-DistinctKeys k v m d =
      (ground (arith, lookup-remove k k m, same_iff k k), remove-DistinctKeys k m d)
