-- ===== src/Base/Every.antt =====
-- A predicate on all elements of a list, kept by what the crate does to its `Vec`s.
use Prim.Native.Nat.{ℕ, zero, suc}
use mathlib.Core.Logic.{inl, inr}
use mathlib.Core.List.{List, [], ◌∷◌, ◌++◌}
use fanotify_fid.Base.Tests.{ltb, Bool-cases}
use fanotify_fid.Base.Lists.{All, length, take, update_at}
use fanotify_fid.Base.Slots.{clear_slot}

module _ {ℓ κ} {A : Type ℓ} (P : A → Type κ) where
  pub All-append_one : (xs : List A) (x : A) → All P xs → P x → All P (xs ++ x ∷ [])
  All-append_one [] x h p = (p, tt)
  All-append_one (y ∷ ys) x h p = (h.0, All-append_one ys x h.1 p)

  pub All-take : (n : ℕ) (xs : List A) → All P xs → All P (take n xs)
  All-take zero xs h = tt
  All-take (suc n) [] h = tt
  All-take (suc n) (x ∷ xs) h = (h.0, All-take n xs h.1)

  pub All-update_at :
      (i : ℕ) (f : A → A) (xs : List A)
      → ((x : A) → P x → P (f x))
      → All P xs
      → All P (update_at i f xs)
  All-update_at zero f [] keep h = tt
  All-update_at (suc i) f [] keep h = tt
  All-update_at zero f (x ∷ xs) keep h = (keep x h.0, h.1)
  All-update_at (suc i) f (x ∷ xs) keep h = (h.0, All-update_at i f xs keep h.1)

  pub All-clear_slot :
      (reset : A → A) (new : A) (xs : List A) (n : ℕ)
      → ((x : A) → P x → P (reset x))
      → P new
      → All P xs
      → All P (clear_slot reset new xs n)
  unfolding clear_slot
  All-clear_slot reset new xs n keep fresh h = elim (Bool-cases (ltb n (length xs))) [
    | inl old ↦ rw old (All-update_at n reset xs keep h)
    | inr over ↦ rw over (All-append_one xs new h fresh)
  ]
