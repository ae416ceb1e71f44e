-- ===== src/Base/Lists.antt =====
-- Lists measured and indexed by native numbers, under the library's names.
use Prim.Native.Nat.{ℕ, zero, suc, ◌+◌, ◌-◌, ◌≤◌, ◌<◌, min}
use mathlib.Core.Path.{◌≡◌, refl, ap, ◌∙◌}
use mathlib.Core.List.{List, [], ◌∷◌, ◌++◌}
use mathlib.Core.Option.{Option, none, some}
use native.Mathlib.Omega.{arith}

module _ {ℓ} {A : Type ℓ} where
  abbrev pub length : List A → ℕ
  length [] = 0
  length (x ∷ xs) = suc (length xs)

  abbrev pub get_elem? : List A → ℕ → Option A
  get_elem? [] i = none
  get_elem? (x ∷ xs) zero = some x
  get_elem? (x ∷ xs) (suc i) = get_elem? xs i

  -- A write out of bounds changes nothing.
  abbrev pub set : List A → ℕ → A → List A
  set [] i v = []
  set (x ∷ xs) zero v = v ∷ xs
  set (x ∷ xs) (suc i) v = x ∷ set xs i v

  abbrev pub take : ℕ → List A → List A
  take zero xs = []
  take (suc n) [] = []
  take (suc n) (x ∷ xs) = x ∷ take n xs

  abbrev pub drop : ℕ → List A → List A
  drop zero xs = xs
  drop (suc n) [] = []
  drop (suc n) (x ∷ xs) = drop n xs

  abbrev pub replicate : ℕ → A → List A
  replicate zero a = []
  replicate (suc n) a = a ∷ replicate n a

  abbrev pub All {κ} : (A → Type κ) → List A → Type κ
  All P [] = Unit
  All P (x ∷ xs) = P x × All P xs

module _ {ℓ} {A : Type ℓ} where
  pub length-append : (xs ys : List A) → length (xs ++ ys) ≡ length xs + length ys
  length-append [] ys = omega arith
  length-append (x ∷ xs) ys = omega (arith, length-append xs ys)

  pub length-set : (xs : List A) (i : ℕ) (v : A) → length (set xs i v) ≡ length xs
  length-set [] i v = refl
  length-set (x ∷ xs) zero v = refl
  length-set (x ∷ xs) (suc i) v = ap suc (length-set xs i v)

  pub take-append-drop : (n : ℕ) (xs : List A) → take n xs ++ drop n xs ≡ xs
  take-append-drop zero xs = refl
  take-append-drop (suc n) [] = refl
  take-append-drop (suc n) (x ∷ xs) = rw (take-append-drop n xs)

  pub length-take : (n : ℕ) (xs : List A) → length (take n xs) ≡ min n (length xs)
  length-take zero xs = omega arith
  length-take (suc n) [] = omega arith
  length-take (suc n) (x ∷ xs) = omega (arith, length-take n xs)

  pub length-drop : (n : ℕ) (xs : List A) → length (drop n xs) ≡ length xs - n
  length-drop zero xs = omega arith
  length-drop (suc n) [] = omega arith
  length-drop (suc n) (x ∷ xs) = omega (arith, length-drop n xs)

  pub length-replicate : (n : ℕ) (a : A) → length (replicate n a) ≡ n
  length-replicate zero a = refl
  length-replicate (suc n) a = ap suc (length-replicate n a)

  -- The first list of an append, and what follows it, by its length.
  pub take-append_left : (n : ℕ) (xs ys : List A) → n ≡ length xs → take n (xs ++ ys) ≡ xs
  take-append_left zero [] ys h = refl
  take-append_left zero (x ∷ xs) ys h = absurd (omega arith)
  take-append_left (suc n) [] ys h = absurd (omega arith)
  take-append_left (suc n) (x ∷ xs) ys h = ap (λ t. x ∷ t) (take-append_left n xs ys (omega arith))

  pub drop-append_left : (n : ℕ) (xs ys : List A) → n ≡ length xs → drop n (xs ++ ys) ≡ ys
  drop-append_left zero [] ys h = refl
  drop-append_left zero (x ∷ xs) ys h = absurd (omega arith)
  drop-append_left (suc n) [] ys h = absurd (omega arith)
  drop-append_left (suc n) (x ∷ xs) ys h = drop-append_left n xs ys (omega arith)

  pub take-append_le : (n : ℕ) (xs ys : List A) → n ≤ length xs → take n (xs ++ ys) ≡ take n xs
  take-append_le zero xs ys h = refl
  take-append_le (suc n) [] ys h = absurd (omega arith)
  take-append_le (suc n) (x ∷ xs) ys h = ap (λ t. x ∷ t) (take-append_le n xs ys (omega arith))

  pub drop-append_le :
      (n : ℕ) (xs ys : List A) → n ≤ length xs → drop n (xs ++ ys) ≡ drop n xs ++ ys
  drop-append_le zero xs ys h = refl
  drop-append_le (suc n) [] ys h = absurd (omega arith)
  drop-append_le (suc n) (x ∷ xs) ys h = drop-append_le n xs ys (omega arith)

  pub drop-drop : (m n : ℕ) (xs : List A) → drop m (drop n xs) ≡ drop (n + m) xs
  drop-drop m zero xs = ap (λ k. drop k xs) (omega arith)
  drop-drop zero (suc n) [] =
      ap (λ k. drop {A = A} k []) (let e : suc n ≡ suc n + 0 = omega arith in e)
  drop-drop (suc m) (suc n) [] =
      ap (λ k. drop {A = A} k []) (let e : suc (n + suc m) ≡ suc n + suc m = omega arith in e)
  drop-drop m (suc n) (x ∷ xs) =
      drop-drop m n xs
      ∙ ap (λ k. drop k (x ∷ xs)) (let e : suc (n + m) ≡ suc n + m = omega arith in e)

  pub take_all : (n : ℕ) (xs : List A) → length xs ≤ n → take n xs ≡ xs
  take_all zero [] h = refl
  take_all zero (x ∷ xs) h = absurd (omega arith)
  take_all (suc n) [] h = refl
  take_all (suc n) (x ∷ xs) h = ap (λ t. x ∷ t) (take_all n xs (omega arith))

module _ {ℓ} {A : Type ℓ} where
  -- `f(&mut xs[i])`; out of bounds it changes nothing.
  abbrev pub update_at : ℕ → (A → A) → List A → List A
  update_at i f [] = []
  update_at zero f (x ∷ xs) = f x ∷ xs
  update_at (suc i) f (x ∷ xs) = x ∷ update_at i f xs

  pub length-update_at : (i : ℕ) (f : A → A) (xs : List A) → length (update_at i f xs) ≡ length xs
  length-update_at zero f [] = refl
  length-update_at (suc i) f [] = refl
  length-update_at zero f (x ∷ xs) = refl
  length-update_at (suc i) f (x ∷ xs) = ap suc (length-update_at i f xs)

  pub update_at-update_at :
      (i : ℕ) (f g : A → A) (xs : List A)
      → update_at i f (update_at i g xs) ≡ update_at i (λ x. f (g x)) xs
  update_at-update_at zero f g [] = refl
  update_at-update_at (suc i) f g [] = refl
  update_at-update_at zero f g (x ∷ xs) = refl
  update_at-update_at (suc i) f g (x ∷ xs) = ap (λ t. x ∷ t) (update_at-update_at i f g xs)

  -- A constant update: the prefix in front of it, and the value.
  pub take-update_at :
      (i : ℕ) (f : A → A) (v : A) (xs : List A)
      → ((x : A) → f x ≡ v)
      → i < length xs
      → take (suc i) (update_at i f xs) ≡ take i xs ++ v ∷ []
  take-update_at zero f v [] h l = elim l [ ]
  take-update_at (suc i) f v [] h l = elim l [ ]
  take-update_at zero f v (x ∷ xs) h l = ap (λ t. t ∷ []) (h x)
  take-update_at (suc i) f v (x ∷ xs) h l =
      ap (λ t. x ∷ t) (take-update_at i f v xs h (omega arith))

  pub update_at-append_end :
      (i : ℕ) (f : A → A) (xs : List A) (x : A)
      → i ≡ length xs
      → update_at i f (xs ++ x ∷ []) ≡ xs ++ f x ∷ []
  update_at-append_end zero f [] x h = refl
  update_at-append_end zero f (y ∷ ys) x h = absurd (omega arith)
  update_at-append_end (suc i) f [] x h = absurd (omega arith)
  update_at-append_end (suc i) f (y ∷ ys) x h =
      ap (λ t. y ∷ t) (update_at-append_end i f ys x (omega arith))

pub take-take {ℓ} : {A : Type ℓ} (m n : ℕ) (xs : List A) → m ≤ n → take m (take n xs) ≡ take m xs
take-take zero n xs h = refl
take-take (suc m) zero xs h = absurd (omega arith)
take-take (suc m) (suc n) [] h = refl
take-take (suc m) (suc n) (x ∷ xs) h = ap (λ t. x ∷ t) (take-take m n xs (omega arith))

pub take-drop {ℓ} :
    {A : Type ℓ} (m n k : ℕ) (xs : List A) → n ≡ m + k → take k (drop m xs) ≡ drop m (take n xs)
take-drop zero n k xs h = ap (λ j. take j xs) (omega arith)
take-drop (suc m) zero k xs h = absurd (omega arith)
take-drop (suc m) (suc n) zero [] h = refl
take-drop (suc m) (suc n) (suc k) [] h = refl
take-drop (suc m) (suc n) k (x ∷ xs) h = take-drop m n k xs (omega arith)
