-- ===== src/Base/Total.antt =====
-- A sum over the values of a hash map. It depends on what the map answers alone.
use Prim.Native.Nat.{ℕ, ◌+◌}
use mathlib.Core.Path.{◌≡◌, refl, sym, ◌∙◌, ap}
use mathlib.Core.Logic.{◌↔◌, inl, inr}
use mathlib.Core.Bool.{Bool, true}
use mathlib.Core.List.{List, [], ◌∷◌}
use mathlib.Core.Option.{Option, none, some}
use native.Mathlib.Omega.{arith}
use fanotify_fid.Base.Tests.{if◌then◌else◌, Bool-cases}
use fanotify_fid.Base.Assoc.{lookup, remove, DistinctKeys, lookup-remove, remove-DistinctKeys}

abbrev pub total {ℓ κ} : {K : Type ℓ} {V : Type κ} → (V → ℕ) → List (K × V) → ℕ
total w [] = 0
total w ((k, v) ∷ m) = w v + total w m

-- A key that is not there weighs nothing.
abbrev pub weight {κ} : {V : Type κ} → (V → ℕ) → Option V → ℕ
weight w none = 0
weight w (some v) = w v

module _ {ℓ κ} {K : Type ℓ} {V : Type κ} (w : V → ℕ) (same : K → K → Bool)
    (same_iff : (a b : K) → (same a b ≡ true) ↔ (a ≡ b)) where
  remove-absent :
      (k : K) (m : List (K × V)) → lookup same k m ≡ none → total w (remove same k m) ≡ total w m
  remove-absent k [] absent = refl
  remove-absent k ((j, v) ∷ m) absent = ground (arith, remove-absent k m)

  total-remove :
      (k : K) (m : List (K × V))
      → DistinctKeys same m
      → total w m ≡ weight w (lookup same k m) + total w (remove same k m)
  total-remove k [] d = refl
  total-remove k ((j, v) ∷ m) (once, d) = elim (Bool-cases (same k j)) [
    | inl hit ↦
        let absent : lookup same k m ≡ none =
          ap (λ x. lookup same x m) ((same_iff k j).0 hit) ∙ once in
        rw hit (omega (arith, remove-absent k m absent))
    | inr miss ↦ rw miss (omega (arith, total-remove k m d))
  ]

  -- Behind its first key a map answers as before, but for that key.
  weight-tail :
      (k j : K) (v : V) (m : List (K × V))
      → lookup same j m ≡ none
      → weight w (lookup same k m) ≡ (if same k j then 0 else weight w (lookup same k ((j, v) ∷ m)))
  weight-tail k j v m once = elim (Bool-cases (same k j)) [
    | inl hit ↦
        let absent : lookup same k m ≡ none =
          ap (λ x. lookup same x m) ((same_iff k j).0 hit) ∙ once in
        rw (hit, absent) refl
    | inr miss ↦ rw miss refl
  ]

  weight-first : (j : K) (v : V) (m : List (K × V)) → weight w (lookup same j ((j, v) ∷ m)) ≡ w v
  weight-first j v m = rw ((same_iff j j).1 refl) refl

  total-weightless :
      (m : List (K × V))
      → DistinctKeys same m
      → ((k : K) → weight w (lookup same k m) ≡ 0)
      → total w m ≡ 0
  total-weightless [] d h = refl
  total-weightless ((j, v) ∷ m) (once, d) h = omega (
    arith,
    weight-first j v m,
    h j,
    total-weightless m d (λ k. ground (arith, weight-tail k j v m once, h k)),
  )

  weight-remove :
      (k j : K) (n : List (K × V))
      → weight w (lookup same k (remove same j n))
        ≡ (if same k j then 0 else weight w (lookup same k n))
  weight-remove k j n = ground (arith, lookup-remove same same_iff k j n)

  -- Two maps whose answers weigh the same have the same total.
  pub total-lookup :
      (m n : List (K × V))
      → DistinctKeys same m
      → DistinctKeys same n
      → ((k : K) → weight w (lookup same k m) ≡ weight w (lookup same k n))
      → total w m ≡ total w n
  total-lookup [] n d e h = sym (total-weightless n e (λ k. sym (h k)))
  total-lookup ((j, v) ∷ m) n (once, d) e h =
      let rest : total w m ≡ total w (remove same j n) =
        total-lookup m (remove same j n) d (remove-DistinctKeys same same_iff j n e) (λ k.
          weight-tail k j v m once
          ∙ ap (λ x. if same k j then 0 else x) (h k)
          ∙ sym (weight-remove k j n)) in
      omega (arith, rest, total-remove j n e, h j, weight-first j v m)
