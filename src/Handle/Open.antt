-- ===== src/Handle/Open.antt =====
-- src/handle.rs: `open_by_handle_at`, `resolve_file_handle_in` and `name_to_handle_at_raw`. What the
-- kernel answers is a parameter: a call asks about each descriptor once.
use fanotify_fid.Base.{
  ℕ, ℤ, ◌==◌, Bool, true, false, ◌||◌, Option, none, some, List, [], ◌∷◌, ltb, if◌then◌else◌,
  length,
}
use fanotify_fid.Bytes.{Bytes}
use fanotify_fid.Consts.{file_handle_header_size, max_file_handle_size}
use fanotify_fid.Errors.Errno
use fanotify_fid.Fid.Event.{Fsid, FilePath}
use fanotify_fid.Handle.Key.{same_fsid}

-- `io::Error`: an errno of the kernel, or the crate's own refusal of its input.
pub data IoError : Type 0 where
  os : ℕ → IoError
  invalid_input : IoError

pub data IoResult {ℓ} (A : Type ℓ) : Type ℓ where
  done : A → IoResult A
  failed : IoError → IoResult A

-- `e.raw_os_error().unwrap_or(libc::EIO)`
unfoldable pub os_error : IoError → ℕ
os_error (os e) = e
os_error invalid_input = Errno.eio

pub record Candidate : Type 0 where
  pub fd : ℤ
  pub fsid : Option Fsid

-- Do two filesystems differ only where both are known?
unfoldable pub wanted_filesystem : Option Fsid → Option Fsid → Bool
wanted_filesystem none wanted = true
wanted_filesystem (some on) none = true
wanted_filesystem (some on) (some want) = same_fsid want on

unfoldable pub bad_length : Bytes → Bool
bad_length handle =
    ltb (length handle) file_handle_header_size || ltb max_file_handle_size (length handle)

-- `name_to_handle_at` with a flag that an old kernel refuses, and then without it.
unfoldable pub retry_without_flag {ℓ} : {A : Type ℓ} → (Bool → IoResult A) → IoResult A → IoResult A
retry_without_flag ask (done handle) = done handle
retry_without_flag ask (failed invalid_input) = failed invalid_input
retry_without_flag ask (failed (os e)) = if e == Errno.einval then ask false else failed (os e)

-- `ask true` has AT_HANDLE_FID among its flags.
unfoldable pub name_to_handle_at_raw {ℓ} : {A : Type ℓ} → (Bool → IoResult A) → IoResult A
name_to_handle_at_raw ask = retry_without_flag ask (ask true)

-- A failed attempt is followed by the next one.
unfoldable pub first_or {ℓ} : {A : Type ℓ} → IoResult A → (ℕ → IoResult A) → IoResult A
first_or (done a) next = done a
first_or (failed e) next = next (os_error e)

module _ (sys_open : ℤ → Bytes → IoResult ℤ) (read_link : ℤ → IoResult FilePath) where
  unfoldable pub open_by_handle_at : ℤ → Bytes → IoResult ℤ
  open_by_handle_at mount handle =
      if bad_length handle then failed invalid_input else sys_open mount handle

  -- Where the link of /proc leads, once the handle is open.
  unfoldable pub read_opened : IoResult ℤ → IoResult FilePath
  read_opened (done opened) = read_link opened
  read_opened (failed e) = failed e

  unfoldable pub attempt : Bytes → ℤ → IoResult FilePath
  attempt handle mount = read_opened (open_by_handle_at mount handle)

  -- The loop, with its flag and the errno of the last failure.
  unfoldable pub try_candidates :
      Option Fsid → Bytes → List Candidate → Bool → ℕ → IoResult FilePath
  try_candidates fsid handle [] attempted last =
      if attempted then failed (os last) else failed (os Errno.exdev)
  try_candidates fsid handle (c ∷ cs) attempted last =
      let tried = first_or (attempt handle c.fd) (λ e. try_candidates fsid handle cs true e) in
      let skipped = try_candidates fsid handle cs attempted last in
      if wanted_filesystem c.fsid fsid then tried else skipped

  unfoldable pub resolve_file_handle_in : List Candidate → Option Fsid → Bytes → IoResult FilePath
  resolve_file_handle_in candidates fsid handle =
      if bad_length handle
      then failed invalid_input
      else try_candidates fsid handle candidates false Errno.exdev
