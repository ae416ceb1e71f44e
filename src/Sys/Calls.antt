-- ===== src/Sys/Calls.antt =====
-- src/sys.rs: `fanotify_init`, `fanotify_mark` and `fanotify_mark_by_fd`. The kernel has a state,
-- which its calls change; it returns a number, and an errno that is read if the number is negative.
use fanotify_fid.Base.{
  ℕ, ℤ, Bool, false, ◌||◌, Option, none, some, [], ◌∷◌, ◌==◌, if◌then◌else◌, is_negative,
}
use fanotify_fid.Bytes.{Bytes}
use fanotify_fid.Errors.{FanotifyError, Result, ok, err, init, mark}
use fanotify_fid.Errors.Errno

pub record Returned : Type 0 where
  pub value : ℤ
  pub errno : ℕ

unfoldable pub or_errno : (ℕ → FanotifyError) → Returned → Result ℤ
or_errno error r = if is_negative r.value then err (error r.errno) else ok r.value

unfoldable pub done_or_errno : (ℕ → FanotifyError) → Returned → Result (Unit {0})
done_or_errno error r = if is_negative r.value then err (error r.errno) else ok tt

-- `CString::new` refuses a path with a NUL byte.
unfoldable pub has_nul : Bytes → Bool
has_nul [] = false
has_nul (b ∷ bs) = b == 0 || has_nul bs

module _ {ℓ} {K : Type ℓ} where
  unfoldable pub fanotify_init : (K → ℕ → ℕ → K × Returned) → K → ℕ → ℕ → K × Result ℤ
  fanotify_init sys_init k flags event_f_flags =
      let answer = sys_init k flags event_f_flags in (answer.0, or_errno init answer.1)

  -- The object is a path below a directory, or a descriptor with no path.
  module _ (sys_mark : K → ℤ → ℕ → ℕ → ℤ → Option Bytes → K × Returned) where
    unfoldable pub fanotify_mark : K → ℤ → ℕ → ℕ → ℤ → Bytes → K × Result (Unit {0})
    fanotify_mark k group flags mask dir_fd path =
        let answer = sys_mark k group flags mask dir_fd (some path) in
        if has_nul path
        then (k, err (mark Errno.einval))
        else (answer.0, done_or_errno mark answer.1)

    unfoldable pub fanotify_mark_by_fd : K → ℤ → ℕ → ℕ → ℤ → K × Result (Unit {0})
    fanotify_mark_by_fd k group flags mask object_fd =
        let answer = sys_mark k group flags mask object_fd none in
        (answer.0, done_or_errno mark answer.1)
