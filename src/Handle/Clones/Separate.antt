-- ===== src/Handle/Clones/Separate.antt =====
-- src/handle.rs: caches that are cloned keep a lock each, so they are as independent as values.
use fanotify_fid.Base.{
  length-update_at, ℕ, zero, suc, ◌+◌, ◌≡◌, refl, ap, ◌∙◌, none, some, List, [], ◌∷◌, ◌++◌, map,
  get_elem?, update_at, length, ltb, Bool-cases, Option-cases, inl, inr, true, false, arith,
  length-append,
}
use mathlib.Core.List.{map-append}
use fanotify_fid.Handle.Cache.{HandleCache, path_of}
use fanotify_fid.Handle.History.{Operation, apply_operation, learn, path_of-apply_operation}
use fanotify_fid.Handle.Clones.{
  Step, operating, cloning, snapshot, clone, operate_at, add_cache, clone_at, take_step, take_steps,
  asked, answers, count, separate, push_clone, learn_step, learn_steps,
}

map-update_at {ℓ κ} :
    {A : Type ℓ} {B : Type κ} (g : A → B) (f : A → A) (h : B → B) (i : ℕ) (xs : List A)
    → ((x : A) → g (f x) ≡ h (g x))
    → map g (update_at i f xs) ≡ update_at i h (map g xs)
map-update_at g f h zero [] e = refl
map-update_at g f h (suc i) [] e = refl
map-update_at g f h zero (x ∷ xs) e = ap (λ y. y ∷ map g xs) (e x)
map-update_at g f h (suc i) (x ∷ xs) e = ap (λ ys. g x ∷ ys) (map-update_at g f h i xs e)

map-push_clone {ℓ κ} :
    {A : Type ℓ} {B : Type κ} (g : A → B) (f : A → A) (h : B → B) (i : ℕ) (xs ys : List A)
    → ((x : A) → g (f x) ≡ h (g x))
    → map g (push_clone f ys (get_elem? xs i)) ≡ push_clone h (map g ys) (get_elem? (map g xs) i)
unfolding push_clone
map-push_clone g f h zero [] ys e = refl
map-push_clone g f h (suc i) [] ys e = refl
map-push_clone g f h zero (x ∷ xs) ys e =
    map-append g ys (f x ∷ []) ∙ ap (λ y. map g ys ++ y ∷ []) (e x)
map-push_clone g f h (suc i) (x ∷ xs) ys e = map-push_clone g f h i xs ys e

-- The same steps on caches that are values.
abbrev value_step : Step → List HandleCache → List HandleCache
value_step (operating i o) cs = update_at i (apply_operation o) cs
value_step (cloning i) cs = push_clone (λ c. c) cs (get_elem? cs i)

map-value_step :
    (s : Step) (cs : List HandleCache)
    → map path_of (value_step s cs) ≡ learn_step s (map path_of cs)
unfolding learn_step
map-value_step (operating i o) cs =
    map-update_at path_of (apply_operation o) (learn o) i cs
      (λ c. λ i. λ f. λ h. path_of-apply_operation o c f h i)
map-value_step (cloning i) cs = map-push_clone path_of (λ c. c) (λ k. k) i cs cs (λ c. refl)

get_elem?-count_in : (from n i : ℕ) → ltb i n ≡ true → get_elem? (count from n) i ≡ some (from + i)
get_elem?-count_in from zero i h = absurd (ground (arith, h))
get_elem?-count_in from (suc n) zero h = ap some (omega arith)
get_elem?-count_in from (suc n) (suc i) h =
    get_elem?-count_in (suc from) n i (ground (arith, h)) ∙ ap some (omega arith)

get_elem?-count_out : (from n i : ℕ) → ltb i n ≡ false → get_elem? (count from n) i ≡ none
get_elem?-count_out from zero i h = refl
get_elem?-count_out from (suc n) zero h = absurd (ground (arith, h))
get_elem?-count_out from (suc n) (suc i) h = get_elem?-count_out (suc from) n i (ground (arith, h))

count-append : (from n : ℕ) → count from n ++ (from + n) ∷ [] ≡ count from (suc n)
count-append from zero = ap (λ k. k ∷ []) (omega arith)
count-append from (suc n) =
    ap (λ ks. from ∷ ks)
      (ap (λ k. count (suc from) n ++ k ∷ []) (omega arith) ∙ count-append (suc from) n)

get_elem?-numbered : (n i : ℕ) → ltb i n ≡ true → get_elem? (count 0 n) i ≡ some i
get_elem?-numbered n i h = get_elem?-count_in 0 n i h ∙ ap some (omega arith)

count-numbered : (n : ℕ) → count 0 n ++ n ∷ [] ≡ count 0 (suc n)
count-numbered n = ap (λ k. count 0 n ++ k ∷ []) (omega arith) ∙ count-append 0 n

map-count {ℓ} :
    {A : Type ℓ} (f : ℕ → A) (from n : ℕ)
    → map f (count (suc from) n) ≡ map (λ k. f (suc k)) (count from n)
map-count f from zero = refl
map-count f from (suc n) = ap (λ ys. f (suc from) ∷ ys) (map-count f (suc from) n)

module _ {ℓ} {A : Type ℓ} where
  update_at-out :
      (f : A → A) (i : ℕ) (xs : List A) → ltb i (length xs) ≡ false → update_at i f xs ≡ xs
  update_at-out f zero [] h = refl
  update_at-out f (suc i) [] h = refl
  update_at-out f zero (x ∷ xs) h = absurd (ground (arith, h))
  update_at-out f (suc i) (x ∷ xs) h = ap (λ ys. x ∷ ys) (update_at-out f i xs (ground (arith, h)))

  get_elem?-out : (i : ℕ) (xs : List A) → ltb i (length xs) ≡ false → get_elem? xs i ≡ none
  get_elem?-out zero [] h = refl
  get_elem?-out (suc i) [] h = refl
  get_elem?-out zero (x ∷ xs) h = absurd (ground (arith, h))
  get_elem?-out (suc i) (x ∷ xs) h = get_elem?-out i xs (ground (arith, h))

operating-separate :
    (i : ℕ) (o : Operation) (cs : List HandleCache)
    → take_step (operating i o) (separate cs) ≡ separate (value_step (operating i o) cs)
unfolding take_step operate_at
operating-separate i o cs = elim (Bool-cases (ltb i (length cs))) [
  | inl present ↦
      rw (get_elem?-numbered (length cs) i present, length-update_at i (apply_operation o) cs) refl
  | inr absent ↦
      rw (get_elem?-count_out 0 (length cs) i absent, update_at-out (apply_operation o) i cs absent)
        refl
]

push-separate :
    (cs : List HandleCache) (c : HandleCache)
    → add_cache (separate cs) (some (cs ++ c ∷ [], length cs)) ≡ separate (cs ++ c ∷ [])
unfolding add_cache
push-separate cs c =
    let longer : suc (length cs) ≡ length (cs ++ c ∷ []) =
      omega (arith, length-append cs (c ∷ [])) in
    λ i. record {
      locks = cs ++ c ∷ [];
      caches = (count-numbered (length cs) ∙ ap (count 0) longer) i;
    }

cloning-separate :
    (i : ℕ) (cs : List HandleCache)
    → take_step (cloning i) (separate cs) ≡ separate (value_step (cloning i) cs)
unfolding take_step clone_at clone snapshot push_clone
cloning-separate i cs = elim (Bool-cases (ltb i (length cs))) [
  | inl present ↦
      rw (get_elem?-numbered (length cs) i present) (elim (Option-cases (get_elem? cs i)) [
        | inl nothing ↦ rw nothing (unfold add_cache in refl)
        | inr (c, here) ↦ rw here (push-separate cs c)
      ])
  | inr absent ↦ rw (get_elem?-count_out 0 (length cs) i absent, get_elem?-out i cs absent) refl
]

take_step-separate :
    (s : Step) (cs : List HandleCache) → take_step s (separate cs) ≡ separate (value_step s cs)
take_step-separate (operating i o) cs = operating-separate i o cs
take_step-separate (cloning i) cs = cloning-separate i cs

answers-separate : (cs : List HandleCache) → answers (separate cs) ≡ map path_of cs
unfolding answers asked
answers-separate [] = refl
answers-separate (c ∷ cs) =
    ap (λ ks. path_of c ∷ ks) (map-count (asked (c ∷ cs)) 0 (length cs) ∙ answers-separate cs)

-- A program that has made caches one by one operates on them and clones them and their clones: each
-- cache answers as the partial function does that took the same steps, where a clone is a value of
-- its own. What one cache learns or forgets, no other does, as no two are left with one lock.
pub answers-take_steps :
    (ss : List Step) (cs : List HandleCache)
    → answers (take_steps ss (separate cs)) ≡ learn_steps ss (map path_of cs)
unfolding take_steps learn_steps
answers-take_steps [] cs = answers-separate cs
answers-take_steps (s ∷ ss) cs =
    ap (λ p. answers (take_steps ss p)) (take_step-separate s cs)
    ∙ answers-take_steps ss (value_step s cs)
    ∙ ap (learn_steps ss) (map-value_step s cs)
