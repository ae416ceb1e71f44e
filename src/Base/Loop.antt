-- ===== src/Base/Loop.antt =====
-- `loop { … break … }` with a measure that falls: total, with no fuel.
use Prim.Native.Nat.{ℕ, zero, suc, ◌<◌}
use mathlib.Core.Path.{◌≡◌, refl, ◌∙◌, ap}
use mathlib.Core.WellFounded.{Acc}
use native.Mathlib.Omega.{arith}

-- What one round of a loop does: go on from a state, or leave with a result.
pub data Round {ℓ κ} (S : Type ℓ) (R : Type κ) : Type (ℓ ⊔ κ) where
  again : S → Round S R
  leave : R → Round S R

module _ {ℓ κ} {S : Type ℓ} {R : Type κ} where
  next_round : (r : Round S R) → ((s : S) → r ≡ again s → R) → R
  next_round (again s) go = go s refl
  next_round (leave r) go = r

  abbrev pub run_round : (S → R) → Round S R → R
  run_round f (again s) = f s
  run_round f (leave r) = r

  next_round-congr :
      (r : Round S R) (go go' : (s : S) → r ≡ again s → R)
      → ((s : S) (e : r ≡ again s) → go s e ≡ go' s e)
      → next_round r go ≡ next_round r go'
  unfolding next_round
  next_round-congr (again s) go go' h = h s refl
  next_round-congr (leave r) go go' h = refl

  next_round-run_round :
      (r : Round S R) (go : (s : S) → r ≡ again s → R) (f : S → R)
      → ((s : S) (e : r ≡ again s) → go s e ≡ f s)
      → next_round r go ≡ run_round f r
  unfolding next_round
  next_round-run_round (again s) go f h = h s refl
  next_round-run_round (leave r) go f h = refl

  next_round_inv {μ} :
      {Q : R → Type μ} (r : Round S R) (go : (s : S) → r ≡ again s → R)
      → ((s : S) (e : r ≡ again s) → Q (go s e))
      → ((t : R) → r ≡ leave t → Q t)
      → Q (next_round r go)
  unfolding next_round
  next_round_inv (again s) go keep finish = keep s refl
  next_round_inv (leave r) go keep finish = finish r refl

abbrev pub map_round {ℓ κ μ ν} :
    {S : Type ℓ} {R : Type κ} {T : Type μ} {R' : Type ν}
    → (S → T)
    → (R → R')
    → Round S R
    → Round T R'
map_round f g (again s) = again (f s)
map_round f g (leave r) = leave (g r)

module _ {ℓ κ} {S : Type ℓ} {R : Type κ} (measure : S → ℕ) (body : S → Round S R)
    (shrinks : (s s' : S) → body s ≡ again s' → measure s' < measure s) where
  abbrev Shorter : S → S → Type 0
  Shorter a b = measure a < measure b

  Acc-shorter : (k : ℕ) (s : S) → measure s < k → Acc Shorter s
  Acc-shorter zero s h = elim h [ ]
  Acc-shorter (suc k) s h = Acc.intro s (λ t ht. Acc-shorter k t (omega arith))

  accessible : (s : S) → Acc Shorter s
  unfolding Acc-shorter
  accessible s = Acc-shorter (suc (measure s)) s (omega arith)

  rounds : (s : S) → Acc Shorter s → R
  rounds s (Acc.intro _ smaller) =
      next_round (body s) (λ s' e. rounds s' (smaller s' (shrinks s s' e)))

  unfoldable pub loop : S → R
  unfolding rounds accessible next_round
  loop s = rounds s (accessible s)

  rounds_irrelevant : (s : S) (v w : Acc Shorter s) → rounds s v ≡ rounds s w
  unfolding rounds
  rounds_irrelevant s (Acc.intro _ f) (Acc.intro _ g) =
      next_round-congr (body s) _ _
        (λ t e. rounds_irrelevant t (f t (shrinks s t e)) (g t (shrinks s t e)))

  rounds-run_round : (s : S) (w : Acc Shorter s) → rounds s w ≡ run_round loop (body s)
  unfolding loop rounds
  rounds-run_round s (Acc.intro _ smaller) =
      next_round-run_round (body s) _ loop
        (λ t e. rounds_irrelevant t (smaller t (shrinks s t e)) (accessible t))

  -- One round of the loop.
  pub loop_lem : (s : S) → loop s ≡ run_round loop (body s)
  unfolding loop
  loop_lem s = rounds-run_round s (accessible s)

  pub loop_again : {s s' : S} → body s ≡ again s' → loop s ≡ loop s'
  loop_again {s} e = loop_lem s ∙ ap (run_round loop) e

  pub loop_leave : {s : S} {r : R} → body s ≡ leave r → loop s ≡ r
  loop_leave {s} e = loop_lem s ∙ ap (run_round loop) e

  -- The invariant rule: `P` holds of every state, and so `Q` of the result.
  module _ {μ ν} {P : S → Type μ} {Q : R → Type ν}
      (keep : (s s' : S) → P s → body s ≡ again s' → P s')
      (finish : (s : S) (r : R) → P s → body s ≡ leave r → Q r) where
    rounds_inv : (s : S) (w : Acc Shorter s) → P s → Q (rounds s w)
    unfolding rounds
    rounds_inv s (Acc.intro _ smaller) p =
        next_round_inv (body s) _ (λ t e. rounds_inv t (smaller t (shrinks s t e)) (keep s t p e))
          (λ r e. finish s r p e)

    pub loop_inv : (s : S) → P s → Q (loop s)
    unfolding loop
    loop_inv s p = rounds_inv s (accessible s) p

  -- Simulation: `f` takes the rounds of this loop to those of a function `h`, on states with `P`.
  module _ {μ ν ο} {T : Type μ} {R' : Type ν} (body' : T → Round T R') (h : T → R')
      (h_lem : (t : T) → h t ≡ run_round h (body' t)) (f : S → T) (g : R → R') {P : S → Type ο}
      (keep : (s s' : S) → P s → body s ≡ again s' → P s')
      (commute : (s : S) → P s → body' (f s) ≡ map_round f g (body s)) where
    pub loop_map : (s : S) → P s → h (f s) ≡ g (loop s)
    loop_map s p =
        loop_inv {P = λ t. P t × (h (f s) ≡ h (f t))} {Q = λ r. h (f s) ≡ g r}
          (λ t t' q e. (keep t t' q.0 e, q.1 ∙ step t q.0 (again t') e))
          (λ t r q e. q.1 ∙ step t q.0 (leave r) e) s (p, refl)
      where
        step :
            (t : S) → P t → (r : Round S R) → body t ≡ r → h (f t) ≡ run_round h (map_round f g r)
        step t q r e = h_lem (f t) ∙ ap (run_round h) (commute t q ∙ ap (map_round f g) e)
