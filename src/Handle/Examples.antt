-- ===== src/Handle/Examples.antt =====
-- The theorems on the cache of src/handle.rs at a concrete history.
use fanotify_fid.Base.{
  ℕ, zero, suc, eq_ℤ, Option, Bool-cases, inr, ap, sym, ◌∙◌, update_at, length-update_at, arith,
  inl, replicate, ℤ, map, if◌then◌else◌, pos, negsuc, ◌≡◌, refl, ◌==◌, some, none, List, [], ◌∷◌,
  length,
}
use fanotify_fid.Bytes.{Bytes}
use fanotify_fid.Errors.Errno
use fanotify_fid.Fid.Event.{Fsid, FilePath}
use fanotify_fid.Handle.Open.{
  IoResult, done, failed, os, invalid_input, os_error, Candidate, wanted_filesystem, bad_length,
  first_or, attempt, read_opened, open_by_handle_at, try_candidates, resolve_file_handle_in,
}
use fanotify_fid.Handle.Attempts.{wanted_fds, settle, resolve_file_handle_in-settle}
use fanotify_fid.Bytes.{little, to_ne_bytes, from_ne_bytes, le_bytes, le_value}
use fanotify_fid.Sys.Calls.{has_nul}
use fanotify_fid.Handle.Open.{retry_without_flag, name_to_handle_at_raw}
use fanotify_fid.Handle.Encode.{
  NameAnswer, wrote, refused, empty_handle, used_bytes, encoded, name_to_handle_at_flags,
  name_to_handle_at, open_by_handle_at-encoded,
}
use fanotify_fid.Handle.Cache.{
  new, len, is_empty, filesystems, entries, path_of, with_path, or_default, remember, keep_level,
  forget_in, forget,
}
use fanotify_fid.Handle.History.{
  Operation, remembering, forgetting, apply_operation, run, learned, path_of-run,
}
use fanotify_fid.Handle.Entries.{find_entry, entries-path_of}
use fanotify_fid.Handle.History.{learn, clearing}
use fanotify_fid.Bytes.Holds.{Holds}
use fanotify_fid.Fid.Payload.{read_fsid}
use fanotify_fid.Fid.Wire.{wire_fsid}
use fanotify_fid.Handle.Probe.{probe}
use fanotify_fid.Handle.Statfs.{
  StatfsAnswer, filled, refused as no_statfs, fsid_of_fd, Answers, wanted_fds-read_fsid,
}
use fanotify_fid.Handle.Clones.{
  clone, operating, cloning, Step, take_step, take_steps, learn_steps, snapshot, separate, answers,
  asked, operate_at, clone_at, add_cache,
}
use fanotify_fid.Handle.Clones.Separate.{answers-take_steps}
use fanotify_fid.Handle.Key.{same_bytes_iff}
use fanotify_fid.Handle.Counts.{SameAnswers}
use fanotify_fid.Handle.Knowledge.{reached, knowledge_exact, run-knowledge}

abbrev root : Fsid
root = (pos 1, negsuc 4)

abbrev other : Fsid
other = (pos 1, pos 5)

abbrev history : List Operation
history =
    remembering root (1 ∷ []) (47 ∷ [])
    ∷ remembering other (1 ∷ []) (48 ∷ [])
    ∷ remembering root (2 ∷ []) (49 ∷ [])
    ∷ forgetting root (1 ∷ [])
    ∷ forgetting other (1 ∷ [])
    ∷ []

-- The second filesystem is gone with its only handle.
history_state : run history new ≡ (root, (2 ∷ [], 49 ∷ []) ∷ []) ∷ []
unfolding run apply_operation remember or_default forget forget_in keep_level
history_state = refl

entries-path_of_example :
    let c = run history new in
    (find_entry root (2 ∷ []) (entries c) ≡ path_of c root (2 ∷ []))
    × (length (entries c) ≡ len c)
    × (is_empty c ≡ (len c == 0))
    × (is_empty c ≡ (filesystems c == 0))
entries-path_of_example = entries-path_of history root (2 ∷ [])

-- A cache learns a path, is cloned, and forgets it.
abbrev cloned : List Step
cloned =
    operating 0 (remembering root (1 ∷ []) (47 ∷ []))
    ∷ cloning 0
    ∷ operating 0 (forgetting root (1 ∷ []))
    ∷ []

answers-take_steps_example :
    answers (take_steps cloned (separate (new ∷ []))) ≡ learn_steps cloned (map path_of (new ∷ []))
answers-take_steps_example = answers-take_steps cloned (new ∷ [])

-- The clone has kept what the first cache has forgotten.
clones_diverge :
    map (λ known. known root (1 ∷ [])) (answers (take_steps cloned (separate (new ∷ []))))
    ≡ none ∷ some (47 ∷ []) ∷ []
unfolding take_steps take_step operate_at clone_at add_cache clone snapshot answers asked
    apply_operation remember or_default forget forget_in keep_level path_of with_path
clones_diverge = refl

-- One handle after the other, and the other way round with a detour.
abbrev forth : List Operation
forth = remembering root (1 ∷ []) (47 ∷ []) ∷ remembering root (2 ∷ []) (48 ∷ []) ∷ []

abbrev back : List Operation
back =
    remembering other (1 ∷ []) (49 ∷ [])
    ∷ clearing
    ∷ remembering root (2 ∷ []) (48 ∷ [])
    ∷ remembering root (1 ∷ []) (47 ∷ [])
    ∷ []

unknown_to_new : (g : Fsid) (k : Bytes) → path_of new g k ≡ none
unfolding path_of with_path
unknown_to_new g k = refl

forth-back : SameAnswers (run forth new) (run back new)
unfolding learned learn
forth-back g k = ground (
  arith,
  unknown_to_new g k,
  path_of-run forth new g k,
  path_of-run back new g k,
  same_bytes_iff k (1 ∷ []),
  same_bytes_iff k (2 ∷ []),
)

run-knowledge_example :
    let c = run (forgetting root (1 ∷ []) ∷ []) (run forth new) in
    let d = run (forgetting root (1 ∷ []) ∷ []) (run back new) in
    SameAnswers c d × (len c ≡ len d) × (filesystems c ≡ filesystems d) × (is_empty c ≡ is_empty d)
run-knowledge_example =
    run-knowledge forth back (forgetting root (1 ∷ []) ∷ [])
      ((knowledge_exact (reached forth) (reached back)).1 forth-back)

-- Descriptor 3 is on another filesystem, 4 refuses the handle with EPERM, 5 opens it as 9.
abbrev kernel_open : ℤ → Bytes → IoResult ℤ
kernel_open (pos n) handle = if n == 5 then done (pos 9) else failed (os 1)
kernel_open (negsuc n) handle = failed (os 9)

abbrev kernel_link : ℤ → IoResult FilePath
kernel_link fd = done (47 ∷ [])

abbrev mounted : List Candidate
mounted =
    record { fd = pos 3; fsid = some other }
    ∷ record { fd = pos 4; fsid = some root }
    ∷ record { fd = pos 5; fsid = none }
    ∷ []

abbrev a_handle : Bytes
a_handle = 4 ∷ 0 ∷ 0 ∷ 0 ∷ 1 ∷ 0 ∷ 0 ∷ 0 ∷ 7 ∷ 7 ∷ 7 ∷ 7 ∷ []

mounted_path :
    resolve_file_handle_in kernel_open kernel_link mounted (some root) a_handle ≡ done (47 ∷ [])
unfolding resolve_file_handle_in try_candidates first_or attempt read_opened open_by_handle_at
    bad_length wanted_filesystem os_error
mounted_path = refl

resolve_file_handle_in-settle_example :
    resolve_file_handle_in kernel_open kernel_link mounted (some root) a_handle ≡ (
      if bad_length a_handle
      then failed invalid_input
      else settle Errno.exdev
          (map (attempt kernel_open kernel_link a_handle) (wanted_fds (some root) mounted)))
resolve_file_handle_in-settle_example =
    resolve_file_handle_in-settle kernel_open kernel_link mounted (some root) a_handle

-- A kernel that writes a header and says that it used 4 bytes, without the flag for FIDs.
abbrev old_kernel : ℤ → Bytes → Bytes → ℕ → NameAnswer
old_kernel dir_fd path buf flags =
    if flags == 0 then wrote (update_at 0 (λ b. 4) buf) else refused Errno.einval

wrote_inj : (a b : Bytes) → wrote a ≡ wrote b → a ≡ b
wrote_inj a b e = cc

old_kernel-in_place :
    (dir_fd : ℤ) (path buf : Bytes) (flags : ℕ) (after : Bytes)
    → old_kernel dir_fd path buf flags ≡ wrote after
    → length after ≡ length buf
old_kernel-in_place dir_fd path buf zero after e =
    ap length (sym (wrote_inj _ after e)) ∙ length-update_at 0 (λ b. 4) buf
old_kernel-in_place dir_fd path buf (suc n) after e = absurd (ground arith)

encoded_handle : name_to_handle_at little old_kernel (47 ∷ []) ≡ done (4 ∷ replicate 11 0)
unfolding name_to_handle_at has_nul name_to_handle_at_raw retry_without_flag name_to_handle_at_flags
    encoded used_bytes empty_handle to_ne_bytes from_ne_bytes le_bytes le_value
encoded_handle = refl

open_by_handle_at-encoded_example :
    open_by_handle_at kernel_open kernel_link (pos 5) (4 ∷ replicate 11 0)
    ≡ kernel_open (pos 5) (4 ∷ replicate 11 0)
open_by_handle_at-encoded_example =
    open_by_handle_at-encoded little old_kernel old_kernel-in_place kernel_open kernel_link (pos 5)
      (pos 3) (47 ∷ []) (4 ∷ replicate 11 0) (inl encoded_handle)

-- Descriptor 3 is on a filesystem, and fstatfs(2) fails for any other.
abbrev fstatfs : ℤ → StatfsAnswer
fstatfs fd =
    if eq_ℤ fd (pos 3) then filled (0 ∷ 0 ∷ wire_fsid little other) else no_statfs Errno.ebadf

abbrev place : ℤ → Option Fsid
place fd = if eq_ℤ fd (pos 3) then some other else none

other-Holds : Holds (0 ∷ 0 ∷ wire_fsid little other) 2 (wire_fsid little other)
unfolding to_ne_bytes le_bytes
other-Holds = record { within = omega arith; reads = refl }

fstatfs-Answers : (fd : ℤ) → Answers little 2 (place fd) (fstatfs fd)
fstatfs-Answers fd = elim (Bool-cases (eq_ℤ fd (pos 3))) [
  | inl e ↦ rw e (omega arith, other-Holds)
  | inr e ↦ rw e tt
]

root-Holds : Holds (wire_fsid little root) 0 (wire_fsid little root)
unfolding to_ne_bytes le_bytes
root-Holds = record { within = omega arith; reads = refl }

-- The event is on another filesystem than descriptor 3.
wanted_fds-read_fsid_example :
    wanted_fds
      (read_fsid little (wire_fsid little root) 0 8)
      (probe (fsid_of_fd little 2 fstatfs) (pos 3 ∷ pos 4 ∷ []))
    ≡ pos 4 ∷ []
wanted_fds-read_fsid_example =
    wanted_fds-read_fsid little 2 fstatfs place fstatfs-Answers (pos 3 ∷ pos 4 ∷ [])
      (wire_fsid little root) 0 8 root (omega arith) root-Holds (omega arith)
