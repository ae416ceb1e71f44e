-- ===== src/Fid/Compare.antt =====
-- src/fid.rs: when two events compare as equal.
pub mod Exact
pub mod Reported
use fanotify_fid.Base.{
  ℕ, ℤ, eq_ℤ, eq_ℤ_iff, ◌==◌, ==_iff, ◌≡◌, ◌↔◌, refl, ap, Bool, true, false, ◌&&◌, Option, none,
  some, List, [], ◌∷◌, arith,
}
use fanotify_fid.Bytes.{Bytes}
use fanotify_fid.Handle.Key.{same_fsid, same_fsid_iff, same_bytes, same_bytes_iff}
use fanotify_fid.Fid.Event.{Fsid, FilePath, RenameSide, Pidfd, missing, pidfd_eq, FidEvent}
use fanotify_fid.Paths.{Component, root_dir, cur_dir, parent_dir, normal, components}

-- The derived comparisons of options, pairs and lists, over a comparison of their parts.
unfoldable pub option_eq {ℓ} : {A : Type ℓ} → (A → A → Bool) → Option A → Option A → Bool
option_eq eq none none = true
option_eq eq (some a) (some b) = eq a b
option_eq eq _ _ = false

unfoldable pub pair_eq {ℓ κ} :
    {A : Type ℓ} {B : Type κ} → (A → A → Bool) → (B → B → Bool) → A × B → A × B → Bool
pair_eq eq_a eq_b p q = eq_a p.0 q.0 && eq_b p.1 q.1

unfoldable pub list_eq {ℓ} : {A : Type ℓ} → (A → A → Bool) → List A → List A → Bool
list_eq eq [] [] = true
list_eq eq (a ∷ s) (b ∷ t) = eq a b && list_eq eq s t
list_eq eq _ _ = false

-- `Path`s compare by their components, so a repeated separator does not count.
unfoldable pub component_eq : Component → Component → Bool
component_eq root_dir root_dir = true
component_eq cur_dir cur_dir = true
component_eq parent_dir parent_dir = true
component_eq (normal a) (normal b) = same_bytes a b
component_eq _ _ = false

unfoldable pub path_eq : FilePath → FilePath → Bool
path_eq a b = list_eq component_eq (components a) (components b)

unfoldable pub rename_side_eq : RenameSide → RenameSide → Bool
rename_side_eq a b = same_bytes a.handle b.handle && same_bytes a.name b.name

unfoldable pub eq_ℕ : ℕ → ℕ → Bool
eq_ℕ a b = a == b

unfoldable pub event_eq : FidEvent → FidEvent → Bool
event_eq a b =
    a.mask == b.mask
    && eq_ℤ a.pid b.pid
    && option_eq same_fsid a.fsid b.fsid
    && option_eq same_bytes a.dfid_name_handle b.dfid_name_handle
    && option_eq same_bytes a.dfid_name_name b.dfid_name_name
    && option_eq same_bytes a.self_handle b.self_handle
    && pidfd_eq a.pidfd b.pidfd
    && option_eq eq_ℤ a.fd_error b.fd_error
    && option_eq (pair_eq eq_ℤ eq_ℕ) a.fs_error b.fs_error
    && option_eq (pair_eq eq_ℕ eq_ℕ) a.access_range b.access_range
    && option_eq eq_ℕ a.mnt_id b.mnt_id
    && option_eq rename_side_eq a.rename_source b.rename_source
    && option_eq rename_side_eq a.rename_target b.rename_target
    && list_eq (pair_eq eq_ℕ same_bytes) a.unknown_info_records b.unknown_info_records
    && option_eq path_eq a.path b.path

-- The components of a path, if there is one.
unfoldable pub path_components : Option FilePath → Option (List Component)
path_components none = none
path_components (some path) = some (components path)
