-- ===== src/Fid/Compare/Exact.antt =====
-- The comparisons of the fields of an event are true of equal values alone.
use fanotify_fid.Base.{==_iff, ◌≡◌, ◌↔◌, Bool, true, Option, none, some, [], ◌∷◌, arith}
use fanotify_fid.Handle.Key.{same_bytes_iff}
use fanotify_fid.Fid.Event.{FilePath}
use fanotify_fid.Paths.{root_dir, cur_dir, parent_dir, normal, components}
use fanotify_fid.Fid.Compare.{
  option_eq, pair_eq, list_eq, component_eq, path_eq, rename_side_eq, eq_ℕ, path_components,
}

-- A comparison that is true of equal values alone.
abbrev pub Exact {ℓ} : {A : Type ℓ} → (A → A → Bool) → Type ℓ
Exact {A = A} eq = (a b : A) → (eq a b ≡ true) ↔ (a ≡ b)

module _ {ℓ} {A : Type ℓ} (eq : A → A → Bool) (exact : Exact eq) where
  pub option_eq-Exact : Exact (option_eq eq)
  unfolding option_eq
  option_eq-Exact none none = ground arith
  option_eq-Exact none (some b) = ground arith
  option_eq-Exact (some a) none = ground arith
  option_eq-Exact (some a) (some b) = ground (arith, exact a b)

  pub list_eq-Exact : Exact (list_eq eq)
  unfolding list_eq
  list_eq-Exact [] [] = ground arith
  list_eq-Exact [] (b ∷ t) = ground arith
  list_eq-Exact (a ∷ s) [] = ground arith
  list_eq-Exact (a ∷ s) (b ∷ t) = ground (arith, exact a b, list_eq-Exact s t)

pub pair_eq-Exact {ℓ κ} :
    {A : Type ℓ} {B : Type κ} (eq_a : A → A → Bool) (eq_b : B → B → Bool)
    → Exact eq_a
    → Exact eq_b
    → Exact (pair_eq eq_a eq_b)
unfolding pair_eq
pair_eq-Exact eq_a eq_b exact_a exact_b (a, b) (c, d) = ground (arith, exact_a a c, exact_b b d)

component_eq-Exact : Exact component_eq
unfolding component_eq
component_eq-Exact (normal a) (normal b) = ground (arith, same_bytes_iff a b)
component_eq-Exact root_dir root_dir = ground arith
component_eq-Exact cur_dir cur_dir = ground arith
component_eq-Exact parent_dir parent_dir = ground arith
component_eq-Exact root_dir cur_dir = ground arith
component_eq-Exact root_dir parent_dir = ground arith
component_eq-Exact root_dir (normal b) = ground arith
component_eq-Exact cur_dir root_dir = ground arith
component_eq-Exact cur_dir parent_dir = ground arith
component_eq-Exact cur_dir (normal b) = ground arith
component_eq-Exact parent_dir root_dir = ground arith
component_eq-Exact parent_dir cur_dir = ground arith
component_eq-Exact parent_dir (normal b) = ground arith
component_eq-Exact (normal a) root_dir = ground arith
component_eq-Exact (normal a) cur_dir = ground arith
component_eq-Exact (normal a) parent_dir = ground arith

pub rename_side_eq-Exact : Exact rename_side_eq
unfolding rename_side_eq
rename_side_eq-Exact a b =
    ground (arith, same_bytes_iff a.handle b.handle, same_bytes_iff a.name b.name)

pub eq_ℕ-Exact : Exact eq_ℕ
unfolding eq_ℕ
eq_ℕ-Exact a b = ==_iff a b

path_eq-components : (a b : FilePath) → (path_eq a b ≡ true) ↔ (components a ≡ components b)
unfolding path_eq
path_eq-components a b = list_eq-Exact component_eq component_eq-Exact (components a) (components b)

pub option_path_eq :
    (a b : Option FilePath)
    → (option_eq path_eq a b ≡ true) ↔ (path_components a ≡ path_components b)
unfolding option_eq path_components
option_path_eq none none = ground arith
option_path_eq none (some b) = ground arith
option_path_eq (some a) none = ground arith
option_path_eq (some a) (some b) = ground (arith, path_eq-components a b)
