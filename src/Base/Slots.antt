-- ===== src/Base/Slots.antt =====
-- A `Vec` whose elements are used again as slots: the `n`th is reset in place, or pushed.
use Prim.Native.Nat.{ℕ, ◌+◌, ◌≤◌, ◌<◌}
use mathlib.Core.Path.{◌≡◌, ap, sym, ◌∙◌}
use mathlib.Core.Logic.{inl, inr}
use mathlib.Core.Bool.{false}
use mathlib.Core.List.{List, [], ◌∷◌, ◌++◌}
use native.Mathlib.Omega.{arith}
use native.Mathlib.Numerals.{add-one}
use fanotify_fid.Base.Tests.{ltb, if◌then◌else◌, Bool-cases, ltb→lt}
use fanotify_fid.Base.Lists.{
  length, take, update_at, length-update_at, length-append, take-update_at, update_at-update_at,
  update_at-append_end, take_all, length-take,
}

module _ {ℓ} {A : Type ℓ} (reset : A → A) (new : A) where
  -- `xs[n].reset()` if there is such a slot, else `xs.push(new())`.
  unfoldable pub clear_slot : List A → ℕ → List A
  clear_slot xs n = if ltb n (length xs) then update_at n reset xs else xs ++ new ∷ []

  pub length-clear_slot : (xs : List A) (n : ℕ) → n ≤ length xs → n < length (clear_slot xs n)
  unfolding clear_slot
  length-clear_slot xs n h = elim (Bool-cases (ltb n (length xs))) [
    | inl old ↦ rw old (omega (arith, length-update_at n reset xs, ltb→lt n (length xs)))
    | inr fresh ↦ rw fresh (omega (arith, length-append xs (new ∷ [])))
  ]

  -- A cleared slot that is filled: the elements in front of it, and a fresh one that is filled.
  module _ (fill : A → A) (fill-reset : (x : A) → fill (reset x) ≡ fill new) where
    pub take-clear_slot :
        (xs : List A) (n : ℕ)
        → n ≤ length xs
        → take (n + 1) (update_at n fill (clear_slot xs n)) ≡ take n xs ++ fill new ∷ []
    unfolding clear_slot
    take-clear_slot xs n h = elim (Bool-cases (ltb n (length xs))) [
      | inl old ↦
          rw (old, add-one, update_at-update_at)
            (take-update_at n (λ x. fill (reset x)) (fill new) xs fill-reset (ltb→lt _ _ old))
      | inr fresh ↦ rw fresh (at_end (ground arith))
    ]
      where
        at_end :
            n ≡ length xs
            → take (n + 1) (update_at n fill (xs ++ new ∷ [])) ≡ take n xs ++ fill new ∷ []
        at_end e = rw (update_at-append_end n fill xs new e) (
            take_all (n + 1) _ (omega (arith, length-append xs (fill new ∷ [])))
            ∙ ap (λ t. t ++ fill new ∷ []) (sym (take_all n xs (omega arith))))

    -- With no slot left over, the fresh one is pushed.
    pub update_at-clear_slot :
        (xs : List A) (n : ℕ)
        → n ≤ length xs
        → update_at n fill (clear_slot (take n xs) n) ≡ take n xs ++ fill new ∷ []
    unfolding clear_slot
    update_at-clear_slot xs n h =
        rw (lt_irrefl n (length (take n xs)) size)
          (update_at-append_end n fill (take n xs) new size)
      where
        size : n ≡ length (take n xs)
        size = omega (arith, length-take n xs)

        lt_irrefl : (a b : ℕ) → a ≡ b → ltb a b ≡ false
        lt_irrefl a b e = ground arith
