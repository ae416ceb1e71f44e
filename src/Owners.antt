-- ===== src/Owners.antt =====
-- Descriptor numbers that a buffer names, and which mention of a number becomes its owner.
use fanotify_fid.Base.{
  ℤ, is_negative, eq_ℤ, eq_ℤ_iff, ◌≡◌, ap, Bool, false, not, ◌&&◌, ◌||◌, Option, none, some, List,
  [], ◌∷◌, ◌++◌, if◌then◌else◌, arith, Bool-cases, inl, inr,
}

-- `already_adopted.contains(&raw)`
unfoldable pub contains : ℤ → List ℤ → Bool
contains n [] = false
contains n (m ∷ ms) = eq_ℤ m n || contains n ms

abbrev pub numbers : List (Option ℤ) → List ℤ
numbers [] = []
numbers (none ∷ ms) = numbers ms
numbers (some m ∷ ms) = m ∷ numbers ms

abbrev pub Distinct : List ℤ → Type 0
Distinct [] = Unit
Distinct (m ∷ ms) = (contains m ms ≡ false) × Distinct ms

-- Of each number that is no sentinel, the first mention.
unfoldable pub first_mentions : List ℤ → List (Option ℤ) → List (Option ℤ)
first_mentions seen [] = []
first_mentions seen (none ∷ ms) = none ∷ first_mentions seen ms
first_mentions seen (some m ∷ ms) =
    let here = some m ∷ first_mentions (seen ++ m ∷ []) ms in
    if is_negative m || contains m seen then none ∷ first_mentions seen ms else here

contains-append_end :
    (n m : ℤ) (seen : List ℤ) → contains n (seen ++ m ∷ []) ≡ (contains n seen || eq_ℤ m n)
unfolding contains
contains-append_end n m [] = ground arith
contains-append_end n m (s ∷ seen) = ground (arith, contains-append_end n m seen)

contains-eq : (n m : ℤ) (seen : List ℤ) → m ≡ n → contains m seen ≡ contains n seen
contains-eq n m seen e = ap (λ k. contains k seen) e

-- A number is owned exactly if it is mentioned, is no sentinel and was not seen before.
pub contains-first_mentions :
    (n : ℤ) (seen : List ℤ) (ms : List (Option ℤ))
    → contains n (numbers (first_mentions seen ms))
      ≡ (not (is_negative n) && not (contains n seen) && contains n (numbers ms))
unfolding first_mentions contains
contains-first_mentions n seen [] = ground arith
contains-first_mentions n seen (none ∷ ms) = contains-first_mentions n seen ms
contains-first_mentions n seen (some m ∷ ms) = ground (
  arith,
  eq_ℤ_iff m n,
  contains-append_end n m seen,
  contains-first_mentions n seen ms,
  contains-first_mentions n (seen ++ m ∷ []) ms,
)

pub first_mentions-Distinct :
    (seen : List ℤ) (ms : List (Option ℤ)) → Distinct (numbers (first_mentions seen ms))
unfolding first_mentions
first_mentions-Distinct seen [] = tt
first_mentions-Distinct seen (none ∷ ms) = first_mentions-Distinct seen ms
first_mentions-Distinct seen (some m ∷ ms) = elim (Bool-cases (is_negative m || contains m seen)) [
  | inl old ↦ rw old (first_mentions-Distinct seen ms)
  | inr here ↦ rw here (once, first_mentions-Distinct (seen ++ m ∷ []) ms)
]
  where
    once : contains m (numbers (first_mentions (seen ++ m ∷ []) ms)) ≡ false
    once = ground (
      arith,
      eq_ℤ_iff m m,
      contains-append_end m m seen,
      contains-first_mentions m (seen ++ m ∷ []) ms,
    )

-- Which numbers are open, or are held by someone.
abbrev pub Table : Type 0
Table = ℤ → Bool

abbrev pub opened : ℤ → Table → Table
opened n table m = eq_ℤ n m || table m

abbrev pub closed : ℤ → Table → Table
closed n table m = not (eq_ℤ n m) && table m
