-- ===== src/Handle/Statfs.antt =====
-- src/handle.rs: the filesystem of a path and of a descriptor, from statfs(2) and fstatfs(2).
use fanotify_fid.Base.{
  ℕ, ℤ, ◌+◌, ◌≤◌, ◌≡◌, refl, ap, to_i32, to_u32, to_i32-to_u32, to_u32_lt, Option, none, some, List,
  [], ◌∷◌, true, if◌then◌else◌, arith,
}
use fanotify_fid.Bytes.{Bytes, Endian, read_field, to_ne_bytes}
use fanotify_fid.Bytes.Words.{length-to_ne_bytes}
use fanotify_fid.Bytes.Holds.{Holds, Holds-left, Holds-right, read_field-word}
use fanotify_fid.Fid.Event.{Fsid, FilePath}
use fanotify_fid.Fid.Payload.{read_fsid}
use fanotify_fid.Fid.Wire.{wire_fsid, IsFsid}
use fanotify_fid.Fid.Wire.Payloads.{read_fsid-Holds}
use fanotify_fid.Sys.Calls.{has_nul}
use fanotify_fid.Handle.Key.{same_fsid}
use fanotify_fid.Handle.Open.{IoResult, done, failed, os, invalid_input, wanted_filesystem}
use fanotify_fid.Handle.Mounts.{known_fsid}
use fanotify_fid.Handle.Attempts.{wanted_fds}
use fanotify_fid.Handle.Probe.{probe}

-- What statfs(2) answers: the structure that it filled, or an errno.
pub data StatfsAnswer : Type 0 where
  filled : Bytes → StatfsAnswer
  refused : ℕ → StatfsAnswer

-- A path as a C string.
unfoldable pub c_path : FilePath → IoResult Bytes
c_path path = if has_nul path then failed invalid_input else done path

-- The call goes on with the C string.
unfoldable pub with_c_path : IoResult Bytes → (Bytes → IoResult Fsid) → IoResult Fsid
with_c_path (done c) ask = ask c
with_c_path (failed e) ask = failed e

module _ (en : Endian) (f_fsid_at : ℕ) where
  -- `f_fsid` is two words at its offset in the structure, which the libc sets.
  unfoldable pub fsid_of_statfs : Bytes → Fsid
  fsid_of_statfs st =
      (to_i32 (read_field en 4 st f_fsid_at), to_i32 (read_field en 4 st (f_fsid_at + 4)))

  unfoldable pub statfs_result : StatfsAnswer → IoResult Fsid
  statfs_result (filled st) = done (fsid_of_statfs st)
  statfs_result (refused e) = failed (os e)

  unfoldable pub fsid_of_path : (Bytes → StatfsAnswer) → FilePath → IoResult Fsid
  fsid_of_path sys_statfs path = with_c_path (c_path path) (λ c. statfs_result (sys_statfs c))

  unfoldable pub fsid_of_fd : (ℤ → StatfsAnswer) → ℤ → IoResult Fsid
  fsid_of_fd sys_fstatfs fd = statfs_result (sys_fstatfs fd)

  fsid_of_statfs-Holds :
      (st : Bytes) (f : Fsid)
      → IsFsid f
      → Holds st f_fsid_at (wire_fsid en f)
      → fsid_of_statfs st ≡ f
  unfolding fsid_of_statfs
  fsid_of_statfs-Holds st (a, b) v h = rw (
    read_field-word en 4 (to_u32 a) (Holds-left first second h) (to_u32_lt a v.0),
    read_field-word en 4 (to_u32 b) at_second (to_u32_lt b v.1),
    to_i32-to_u32 a v.0,
    to_i32-to_u32 b v.1,
  )
    where
      first : Bytes
      first = to_ne_bytes en 4 (to_u32 a)

      second : Bytes
      second = to_ne_bytes en 4 (to_u32 b)

      at_second : Holds st (f_fsid_at + 4) second
      at_second = rw (length-to_ne_bytes en 4 (to_u32 a)) at (Holds-right first second h)

  -- What fstatfs(2) answers for a descriptor on a filesystem, or on one that it does not tell.
  abbrev pub Answers : Option Fsid → StatfsAnswer → Type 0
  Answers (some f) (filled st) = IsFsid f × Holds st f_fsid_at (wire_fsid en f)
  Answers none (refused e) = Unit
  Answers _ _ = ⊥

  module _ (sys_fstatfs : ℤ → StatfsAnswer) (on : ℤ → Option Fsid)
      (answers : (fd : ℤ) → Answers (on fd) (sys_fstatfs fd)) where
    known_fsid-Answers :
        (place : Option Fsid) (answer : StatfsAnswer)
        → Answers place answer
        → known_fsid (statfs_result answer) ≡ place
    unfolding known_fsid statfs_result
    known_fsid-Answers (some f) (filled st) h = ap some (fsid_of_statfs-Holds st f h.0 h.1)
    known_fsid-Answers none (refused e) h = refl
    known_fsid-Answers (some f) (refused e) h = absurd h
    known_fsid-Answers none (filled st) h = absurd h

    -- The descriptors on a filesystem, or on one that is not told.
    abbrev pub may_hold : Fsid → List ℤ → List ℤ
    may_hold g [] = []
    may_hold g (fd ∷ fds) =
        let rest = may_hold g fds in
        if (elim (on fd) [ none ↦ true | some f ↦ same_fsid g f ]) then fd ∷ rest else rest

    wanted_fds-may_hold :
        (g : Fsid) (fds : List ℤ)
        → wanted_fds (some g) (probe (fsid_of_fd sys_fstatfs) fds) ≡ may_hold g fds
    unfolding wanted_fds probe fsid_of_fd wanted_filesystem
    wanted_fds-may_hold g [] = refl
    wanted_fds-may_hold g (fd ∷ fds) =
        ground (
          arith,
          known_fsid-Answers (on fd) (sys_fstatfs fd) (answers fd),
          wanted_fds-may_hold g fds,
        )

    -- Each descriptor is on some filesystem that the kernel writes into the answer of fstatfs(2),
    -- or fstatfs(2) fails for it; and the kernel writes the filesystem of an event into a record.
    -- Then the event's handles are tried on the descriptors of the same filesystem and on those
    -- that fstatfs(2) fails for, in order, and on no other.
    pub wanted_fds-read_fsid :
        (fds : List ℤ) (buf : Bytes) (at len : ℕ) (g : Fsid)
        → IsFsid g
        → Holds buf at (wire_fsid en g)
        → 8 ≤ len
        → wanted_fds (read_fsid en buf at len) (probe (fsid_of_fd sys_fstatfs) fds) ≡ may_hold g fds
    wanted_fds-read_fsid fds buf at len g v h l =
        rw (read_fsid-Holds en len g v h l) (wanted_fds-may_hold g fds)
