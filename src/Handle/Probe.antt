-- ===== src/Handle/Probe.antt =====
-- src/handle.rs: `resolve_file_handle`, which asks for the filesystem of each descriptor anew, and
-- the `Mounts` that learned it once.
use fanotify_fid.Base.{
  ℤ, ◌≡◌, refl, sym, ap, ◌∙◌, Option, List, [], ◌∷◌, ◌++◌, map, if◌then◌else◌, Bool-cases, inl, inr,
}
use mathlib.Core.List.{append_assoc, append-nil}
use fanotify_fid.Bytes.{Bytes}
use fanotify_fid.Errors.Errno
use fanotify_fid.Fid.Event.{Fsid, FilePath}
use fanotify_fid.Handle.Cache.{no_entries}
use fanotify_fid.Handle.Open.{
  IoResult, done, failed, os, Candidate, wanted_filesystem, attempt, open_by_handle_at,
  resolve_file_handle_in,
}
use fanotify_fid.Handle.Mounts.{Mounts, known_fsid, push_mount, add, candidates}
use fanotify_fid.Handle.Attempts.{wanted_fds, resolve_file_handle_in-settle}

module _ (fsid_of_fd : ℤ → IoResult Fsid) where
  unfoldable pub probe : List ℤ → List Candidate
  probe [] = []
  probe (fd ∷ fds) = record { fd = fd; fsid = known_fsid (fsid_of_fd fd) } ∷ probe fds

  module _ (sys_open : ℤ → Bytes → IoResult ℤ) (read_link : ℤ → IoResult FilePath) where
    unfoldable pub resolve_file_handle : List ℤ → Option Fsid → Bytes → IoResult FilePath
    resolve_file_handle mount_fds fsid handle =
        if no_entries mount_fds
        then failed (os Errno.einval)
        else resolve_file_handle_in sys_open read_link (probe mount_fds) fsid handle

  module _ (try_clone : ℤ → IoResult ℤ) where
    -- `Mounts::add` for each descriptor, up to the first that fails.
    unfoldable pub and_add_each : (Mounts → IoResult Mounts) → IoResult Mounts → IoResult Mounts
    and_add_each rest (done m) = rest m
    and_add_each rest (failed e) = failed e

    unfoldable pub add_each : List ℤ → Mounts → IoResult Mounts
    add_each [] m = done m
    add_each (fd ∷ fds) m = and_add_each (add_each fds) (add fsid_of_fd try_clone m fd)

    -- A duplicate refers to what its original refers to.
    module _ (dup : ℤ → ℤ) (clones : (fd : ℤ) → try_clone fd ≡ done (dup fd)) where
      abbrev duplicates : List ℤ → Mounts
      duplicates fds = map (λ fd. (dup fd, known_fsid (fsid_of_fd fd))) fds

      add_each-duplicates :
          (fds : List ℤ) (m : Mounts) → add_each fds m ≡ done (m ++ duplicates fds)
      unfolding add_each and_add_each add push_mount
      add_each-duplicates [] m = ap done (sym (append-nil m))
      add_each-duplicates (fd ∷ fds) m = rw (clones fd) (
          add_each-duplicates fds (m ++ (dup fd, known_fsid (fsid_of_fd fd)) ∷ [])
          ∙ ap done (append_assoc m ((dup fd, known_fsid (fsid_of_fd fd)) ∷ []) (duplicates fds)))

      wanted_fds-probe :
          (fsid : Option Fsid) (fds : List ℤ)
          → wanted_fds fsid (candidates (duplicates fds)) ≡ map dup (wanted_fds fsid (probe fds))
      unfolding wanted_fds candidates probe
      wanted_fds-probe fsid [] = refl
      wanted_fds-probe fsid (fd ∷ fds) =
          elim (Bool-cases (wanted_filesystem (known_fsid (fsid_of_fd fd)) fsid)) [
            | inl tried ↦ rw tried (ap (λ t. dup fd ∷ t) (wanted_fds-probe fsid fds))
            | inr skipped ↦ rw skipped (wanted_fds-probe fsid fds)
          ]

      module _ (sys_open : ℤ → Bytes → IoResult ℤ) (read_link : ℤ → IoResult FilePath)
          (same : (fd : ℤ) (handle : Bytes) → sys_open (dup fd) handle ≡ sys_open fd handle) where
        attempt-dup :
            (handle : Bytes) (fd : ℤ)
            → attempt sys_open read_link handle (dup fd) ≡ attempt sys_open read_link handle fd
        unfolding attempt open_by_handle_at
        attempt-dup handle fd = rw (same fd handle) refl

        map-attempt-dup :
            (handle : Bytes) (fds : List ℤ)
            → map (attempt sys_open read_link handle) (map dup fds)
              ≡ map (attempt sys_open read_link handle) fds
        map-attempt-dup handle [] = refl
        map-attempt-dup handle (fd ∷ fds) = cc (attempt-dup handle fd, map-attempt-dup handle fds)

        in_candidates :
            (fds : List ℤ) (fsid : Option Fsid) (handle : Bytes)
            → resolve_file_handle_in sys_open read_link (probe fds) fsid handle
              ≡ resolve_file_handle_in sys_open read_link (candidates (duplicates fds)) fsid handle
        in_candidates fds fsid handle =
            resolve_file_handle_in-settle sys_open read_link (probe fds) fsid handle
            ∙ sym (
                resolve_file_handle_in-settle sys_open read_link (candidates (duplicates fds)) fsid
                  handle
                ∙ rw (wanted_fds-probe fsid fds)
                    (rw (map-attempt-dup handle (wanted_fds fsid (probe fds))) refl))

        -- Descriptors that can be duplicated, and whose duplicates open what they open: resolving a
        -- handle on a collection that was made of them gives what resolving it on the descriptors
        -- themselves gives, with one probe each time, and EINVAL only if there is no descriptor.
        pub resolve_file_handle-mounts :
            (fds : List ℤ) (m : Mounts) (fsid : Option Fsid) (handle : Bytes)
            → add_each fds [] ≡ done m
            → resolve_file_handle sys_open read_link fds fsid handle ≡ (
                if no_entries fds
                then failed (os Errno.einval)
                else resolve_file_handle_in sys_open read_link (candidates m) fsid handle)
        resolve_file_handle-mounts fds m fsid handle built =
            let m_is : m ≡ duplicates fds = cc (built, add_each-duplicates fds []) in
            unfold resolve_file_handle in rw (m_is, in_candidates fds fsid handle) refl
