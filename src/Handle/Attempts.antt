-- ===== src/Handle/Attempts.antt =====
-- What `resolve_file_handle_in` makes of its attempts: the first success, else the last failure.
use fanotify_fid.Base.{
  ℕ, ℤ, ◌≡◌, refl, ap, ◌∙◌, inl, inr, Bool, true, false, Option, some, List, [], ◌∷◌, map,
  if◌then◌else◌, Bool-cases,
}
use fanotify_fid.Bytes.{Bytes}
use fanotify_fid.Errors.Errno
use fanotify_fid.Fid.Event.{Fsid, FilePath}
use fanotify_fid.Handle.Open.{
  os, invalid_input, IoResult, done, failed, os_error, Candidate, wanted_filesystem, bad_length,
  first_or, attempt, try_candidates, resolve_file_handle_in,
}
use fanotify_fid.Handle.Mounts.{Mounts, on_filesystem, candidates}

-- The descriptors that may hold the handle's filesystem, in order.
unfoldable pub wanted_fds : Option Fsid → List Candidate → List ℤ
wanted_fds fsid [] = []
wanted_fds fsid (c ∷ cs) =
    let rest = wanted_fds fsid cs in if wanted_filesystem c.fsid fsid then c.fd ∷ rest else rest

-- The first success among some results, else the last failure's errno, or `last` with no result.
unfoldable pub settle {ℓ} : {A : Type ℓ} → ℕ → List (IoResult A) → IoResult A
settle last [] = failed (os last)
settle last (done a ∷ rs) = done a
settle last (failed e ∷ rs) = settle (os_error e) rs

first_or-settle {ℓ} :
    {A : Type ℓ} (last : ℕ) (r : IoResult A) (next : ℕ → IoResult A) (rs : List (IoResult A))
    → ((e : ℕ) → next e ≡ settle e rs)
    → first_or r next ≡ settle last (r ∷ rs)
unfolding first_or settle
first_or-settle last (done a) next rs h = refl
first_or-settle last (failed e) next rs h = h (os_error e)

module _ (sys_open : ℤ → Bytes → IoResult ℤ) (read_link : ℤ → IoResult FilePath) where
  -- The flag changes nothing: without an attempt the errno is still EXDEV.
  try_candidates_lem :
      (fsid : Option Fsid) (handle : Bytes) (cs : List Candidate) (attempted : Bool) (last : ℕ)
      → (if attempted then last else Errno.exdev) ≡ last
      → try_candidates sys_open read_link fsid handle cs attempted last
        ≡ settle last (map (attempt sys_open read_link handle) (wanted_fds fsid cs))
  unfolding try_candidates wanted_fds
  try_candidates_lem fsid handle [] true last h = unfold settle in refl
  try_candidates_lem fsid handle [] false last h = unfold settle in ap (λ e. failed (os e)) h
  try_candidates_lem fsid handle (c ∷ cs) attempted last h =
      elim (Bool-cases (wanted_filesystem c.fsid fsid)) [
        | inl tried ↦ rw tried (
            first_or-settle last (attempt sys_open read_link handle c.fd) _ _
              (λ e. try_candidates_lem fsid handle cs true e refl))
        | inr skipped ↦ rw skipped (try_candidates_lem fsid handle cs attempted last h)
      ]

  -- A handle of a bad length is refused before the kernel is asked. Any other is opened on the
  -- descriptors that may be on its filesystem, in order: the first path is the result, and with
  -- none the last failure's errno, or EXDEV when there was no such descriptor.
  pub resolve_file_handle_in-settle :
      (cs : List Candidate) (fsid : Option Fsid) (handle : Bytes)
      → resolve_file_handle_in sys_open read_link cs fsid handle ≡ (
          if bad_length handle
          then failed invalid_input
          else settle Errno.exdev (map (attempt sys_open read_link handle) (wanted_fds fsid cs)))
  unfolding resolve_file_handle_in
  resolve_file_handle_in-settle cs fsid handle =
      rw (try_candidates_lem fsid handle cs false Errno.exdev refl) refl

wanted_fds-candidates :
    (m : Mounts) (fsid : Fsid) → wanted_fds (some fsid) (candidates m) ≡ on_filesystem m fsid
unfolding wanted_fds candidates on_filesystem
wanted_fds-candidates [] fsid = refl
wanted_fds-candidates ((fd, known) ∷ m) fsid = rw (wanted_fds-candidates m fsid) refl

module _ (sys_open : ℤ → Bytes → IoResult ℤ) (read_link : ℤ → IoResult FilePath) where
  -- Over a set of mounts, the handle is opened on those that `on_filesystem` names and on no other:
  -- with a handle of an allowed length the result is the first path, else the last failure's
  -- errno, else EXDEV.
  pub resolve_file_handle_in-mounts :
      (m : Mounts) (fsid : Fsid) (handle : Bytes)
      → resolve_file_handle_in sys_open read_link (candidates m) (some fsid) handle ≡ (
          if bad_length handle
          then failed invalid_input
          else settle Errno.exdev (map (attempt sys_open read_link handle) (on_filesystem m fsid)))
  resolve_file_handle_in-mounts m fsid handle =
      resolve_file_handle_in-settle sys_open read_link (candidates m) (some fsid) handle
      ∙ rw (wanted_fds-candidates m fsid) refl
