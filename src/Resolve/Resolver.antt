-- ===== src/Resolve/Resolver.antt =====
-- src/resolve.rs: `PathResolver`, its lookups and the resolution of one event. The store is the
-- function that its `with_path` answers by, and the kernel's answers are parameters.
use fanotify_fid.Base.{ℤ, Bool, not, ◌&&◌, ◌||◌, Option, none, some, [], ◌∷◌, if◌then◌else◌}
use fanotify_fid.Bytes.{Bytes}
use fanotify_fid.Errors.Errno
use fanotify_fid.Fid.Event.{Fsid, FilePath, FidEvent, RenameSide, set_path, has_path, dfid_name_raw}
use fanotify_fid.Paths.{contains_byte, push}
use fanotify_fid.Handle.Key.{same_bytes}
use fanotify_fid.Handle.Cache.{no_entries}
use fanotify_fid.Handle.Mounts.{Mounts, candidates}
use fanotify_fid.Handle.Open.{IoResult, done, failed, os, invalid_input, resolve_file_handle_in}

pub record PathResolver : Type 0 where
  pub store : Fsid → Bytes → Option FilePath
  pub mounts : Mounts
  pub syscall_fallback : Bool

-- No name, or the directory itself: `name.is_empty() || name == b"."`.
unfoldable pub names_itself : Bytes → Bool
names_itself name = no_entries name || same_bytes name (46 ∷ [])

-- A separator, a NUL or `..`: more than one component, or none.
unfoldable pub bad_name : Bytes → Bool
bad_name name = contains_byte 47 name || contains_byte 0 name || same_bytes name (46 ∷ 46 ∷ [])

unfoldable pub enter : Bytes → FilePath → FilePath
enter name dir = if names_itself name then dir else push dir name

unfoldable pub map_done {ℓ κ} : {A : Type ℓ} {B : Type κ} → (A → B) → IoResult A → IoResult B
map_done f (done a) = done (f a)
map_done f (failed e) = failed e

pub data EventResolution : Type 0 where
  resolved : EventResolution
  already_resolved : EventResolution
  nothing_to_resolve : EventResolution
  unresolvable : EventResolution

-- A step that found a path attaches it; otherwise the next step is taken.
unfoldable pub attach_or :
    FidEvent → IoResult FilePath → EventResolution × FidEvent → EventResolution × FidEvent
attach_or e (done path) next = (resolved, set_path e path)
attach_or e (failed error) next = next

module _ (sys_open : ℤ → Bytes → IoResult ℤ) (read_link : ℤ → IoResult FilePath)
    (r : PathResolver) where
  -- Past the store: the kernel, if it may be asked.
  unfoldable pub ask_kernel : Fsid → Bytes → IoResult FilePath
  ask_kernel fsid handle =
      if not r.syscall_fallback
      then failed (os Errno.exdev)
      else resolve_file_handle_in sys_open read_link (candidates r.mounts) (some fsid) handle

  unfoldable pub resolve_handle : Fsid → Bytes → IoResult FilePath
  resolve_handle fsid handle = elim (r.store fsid handle) [
    | some path ↦ done path
    | none ↦ ask_kernel fsid handle
  ]

  unfoldable pub resolve_dir : Fsid → Bytes → Bytes → IoResult FilePath
  resolve_dir fsid handle name =
      if not (names_itself name) && bad_name name
      then failed invalid_input
      else elim (r.store fsid handle) [
        | some dir ↦ done (enter name dir)
        | none ↦ map_done (enter name) (ask_kernel fsid handle)
      ]

  -- The steps of `resolve_event`, each with what it falls back on.
  unfoldable pub by_self_handle : FidEvent → Fsid → Option Bytes → EventResolution × FidEvent
  by_self_handle e fsid none = (unresolvable, e)
  by_self_handle e fsid (some handle) = attach_or e (resolve_handle fsid handle) (unresolvable, e)

  unfoldable pub by_rename_source : FidEvent → Fsid → Option RenameSide → EventResolution × FidEvent
  by_rename_source e fsid none = by_self_handle e fsid e.self_handle
  by_rename_source e fsid (some side) =
      attach_or e (resolve_dir fsid side.handle side.name) (by_self_handle e fsid e.self_handle)

  unfoldable pub by_dfid_name : FidEvent → Fsid → Option Bytes → EventResolution × FidEvent
  by_dfid_name e fsid none = by_rename_source e fsid e.rename_source
  by_dfid_name e fsid (some handle) =
      attach_or e (resolve_dir fsid handle (dfid_name_raw e))
        (by_rename_source e fsid e.rename_source)

  unfoldable pub on_known_filesystem : FidEvent → Option Fsid → EventResolution × FidEvent
  on_known_filesystem e none = (nothing_to_resolve, e)
  on_known_filesystem e (some fsid) = by_dfid_name e fsid e.dfid_name_handle

  unfoldable pub resolve_event : FidEvent → EventResolution × FidEvent
  resolve_event e = if has_path e then (already_resolved, e) else on_known_filesystem e e.fsid
