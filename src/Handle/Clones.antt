-- ===== src/Handle/Clones.antt =====
-- Several caches of one program, each operated on and cloned. A cache is a reference to a lock with
-- its map, so that two caches could stand for one map.
pub mod Separate
use fanotify_fid.Base.{
  ℕ, zero, suc, ◌+◌, ◌≡◌, refl, sym, ap, ◌∙◌, Option, none, some, List, [], ◌∷◌, ◌++◌, map,
  get_elem?, update_at, length, ltb, Bool-cases, Option-cases, inl, inr, true, false, arith,
  length-append,
}
use mathlib.Core.List.{map-append}
use fanotify_fid.Handle.Cache.{HandleCache, path_of}
use fanotify_fid.Handle.History.{Operation, apply_operation, Known, learn, path_of-apply_operation}

-- The locks that have been allocated, each with its map, and for each cache of the program the
-- number of its lock.
pub record Program : Type 0 where
  pub locks : List HandleCache
  pub caches : List ℕ

-- A copy of the map behind a lock.
unfoldable pub snapshot : List HandleCache → ℕ → Option HandleCache
snapshot locks at = get_elem? locks at

-- `RwLock::new(self.snapshot())`: the locks with a fresh one, and its number.
unfoldable pub clone : List HandleCache → ℕ → Option (List HandleCache × ℕ)
clone locks at = elim (snapshot locks at) [
  | none ↦ none
  | some copy ↦ some (locks ++ copy ∷ [], length locks)
]

-- What a program does to the cache with a number.
pub data Step : Type 0 where
  operating : ℕ → Operation → Step
  cloning : ℕ → Step

unfoldable pub operate_at : Operation → Program → Option ℕ → Program
operate_at o p none = p
operate_at o p (some at) = record p { locks = update_at at (apply_operation o) p.locks }

-- The clone is the last cache.
unfoldable pub add_cache : Program → Option (List HandleCache × ℕ) → Program
add_cache p none = p
add_cache p (some (locks, at)) = record { locks = locks; caches = p.caches ++ at ∷ [] }

unfoldable pub clone_at : Program → Option ℕ → Program
clone_at p none = p
clone_at p (some at) = add_cache p (clone p.locks at)

unfoldable pub take_step : Step → Program → Program
take_step (operating i o) p = operate_at o p (get_elem? p.caches i)
take_step (cloning i) p = clone_at p (get_elem? p.caches i)

unfoldable pub take_steps : List Step → Program → Program
take_steps [] p = p
take_steps (s ∷ ss) p = take_steps ss (take_step s p)

-- What a cache answers, by its lock.
unfoldable pub asked : List HandleCache → ℕ → Known
asked locks at = elim (get_elem? locks at) [ none ↦ λ g k. none | some c ↦ path_of c ]

unfoldable pub answers : Program → List Known
answers p = map (asked p.locks) p.caches

-- The numbers from one on.
abbrev pub count : ℕ → ℕ → List ℕ
count from zero = []
count from (suc n) = from ∷ count (suc from) n

-- Caches that were made one by one, each with a lock of its own.
abbrev pub separate : List HandleCache → Program
separate cs = record { locks = cs; caches = count 0 (length cs) }

-- A value is added behind the others.
unfoldable pub push_clone {ℓ} : {A : Type ℓ} → (A → A) → List A → Option A → List A
push_clone copy cs none = cs
push_clone copy cs (some c) = cs ++ copy c ∷ []

-- The same steps on partial functions, which are values.
unfoldable pub learn_step : Step → List Known → List Known
learn_step (operating i o) ks = update_at i (learn o) ks
learn_step (cloning i) ks = push_clone (λ k. k) ks (get_elem? ks i)

unfoldable pub learn_steps : List Step → List Known → List Known
learn_steps [] ks = ks
learn_steps (s ∷ ss) ks = learn_steps ss (learn_step s ks)
