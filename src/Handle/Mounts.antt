-- ===== src/Handle/Mounts.antt =====
-- src/handle.rs: `Mounts`, descriptors with the filesystem that each is known to be on.
use fanotify_fid.Base.{
  ℕ, ℤ, Option, none, some, List, [], ◌∷◌, ◌++◌, map, get_elem?, if◌then◌else◌, ◌>>=◌,
}
use fanotify_fid.Fid.Event.{Fsid}
use fanotify_fid.Handle.Open.{IoResult, done, failed, Candidate, wanted_filesystem}

abbrev pub Mounts : Type 0
Mounts = List (ℤ × Option Fsid)

-- `fsid_of_fd(&fd).ok()`
unfoldable pub known_fsid : IoResult Fsid → Option Fsid
known_fsid (done fsid) = some fsid
known_fsid (failed e) = none

-- The duplicate of a descriptor, if there is one, goes to the end.
unfoldable pub push_mount : Mounts → IoResult ℤ → Option Fsid → IoResult Mounts
push_mount m (done fd) known = done (m ++ (fd, known) ∷ [])
push_mount m (failed e) known = failed e

-- The kernel's fstatfs(2), and its duplicate of a descriptor.
module _ (fsid_of_fd : ℤ → IoResult Fsid) (try_clone : ℤ → IoResult ℤ) where
  unfoldable pub add : Mounts → ℤ → IoResult Mounts
  add m fd = push_mount m (try_clone fd) (known_fsid (fsid_of_fd fd))

unfoldable pub add_with_fsid : (ℤ → IoResult ℤ) → Mounts → ℤ → Fsid → IoResult Mounts
add_with_fsid try_clone m fd fsid = push_mount m (try_clone fd) (some fsid)

unfoldable pub on_filesystem : Mounts → Fsid → List ℤ
on_filesystem [] fsid = []
on_filesystem ((fd, known) ∷ m) fsid =
    let rest = on_filesystem m fsid in
    if wanted_filesystem known (some fsid) then fd ∷ rest else rest

unfoldable pub candidates : Mounts → List Candidate
candidates m = map (λ e. record { fd = e.0; fsid = e.1 }) m

unfoldable pub fsid_at : Mounts → ℕ → Option Fsid
fsid_at m index = get_elem? m index >>= λ e. e.1

-- `with_fd` is `add` for a collection that is being built.
unfoldable pub with_fd : (ℤ → IoResult Fsid) → (ℤ → IoResult ℤ) → Mounts → ℤ → IoResult Mounts
with_fd fsid_of_fd try_clone m fd = add fsid_of_fd try_clone m fd

unfoldable pub matching : Mounts → Fsid → List ℤ
matching [] fsid = []
matching ((fd, known) ∷ m) fsid =
    let rest = matching m fsid in if wanted_filesystem known (some fsid) then fd ∷ rest else rest

unfoldable pub iter : Mounts → List ℤ
iter m = map (λ e. e.0) m

-- `Index::index`, which panics out of range.
unfoldable pub index : Mounts → ℕ → Option ℤ
index m at = get_elem? m at >>= λ e. some e.0
