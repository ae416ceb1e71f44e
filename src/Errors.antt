-- ===== src/Errors.antt =====
-- src/error.rs: the errors of the crate, each with the errno of the system call that failed.
pub mod Errno
pub mod Describe
pub mod Display
mod Examples
use fanotify_fid.Errors.Errno
use fanotify_fid.Base.{ℕ, Bool, true, false, ◌==◌, Option, none, some}

pub data FanotifyError : Type 0 where
  init : ℕ → FanotifyError
  mark : ℕ → FanotifyError
  read : ℕ → FanotifyError
  write : ℕ → FanotifyError
  unknown_event_version : ℕ → FanotifyError

pub data Result {ℓ} (A : Type ℓ) : Type ℓ where
  ok : A → Result A
  err : FanotifyError → Result A

unfoldable pub errno : FanotifyError → Option ℕ
errno (init e) = some e
errno (mark e) = some e
errno (read e) = some e
errno (write e) = some e
errno (unknown_event_version v) = none

unfoldable pub is_would_block : FanotifyError → Bool
is_would_block (read e) = e == Errno.eagain
is_would_block _ = false
