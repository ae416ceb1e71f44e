-- ===== src/Resolve/Lookups.antt =====
-- src/resolve.rs: a resolver's constructor and switch, what it already knows, and the target of a
-- rename.
use fanotify_fid.Base.{ℤ, Bool, true, Option, none, some}
use fanotify_fid.Bytes.{Bytes}
use fanotify_fid.Fid.Event.{Fsid, FilePath, RenameSide, FidEvent}
use fanotify_fid.Handle.Mounts.{Mounts}
use fanotify_fid.Handle.Open.{IoResult}
use fanotify_fid.Resolve.Resolver.{PathResolver, resolve_dir}

unfoldable pub new_resolver : (Fsid → Bytes → Option FilePath) → Mounts → PathResolver
new_resolver store mounts = record { store = store; mounts = mounts; syscall_fallback = true }

unfoldable pub set_syscall_fallback : PathResolver → Bool → PathResolver
set_syscall_fallback r enabled = record r { syscall_fallback = enabled }

unfoldable pub known : PathResolver → Fsid → Bytes → Option FilePath
known r fsid handle = r.store fsid handle

module _ (sys_open : ℤ → Bytes → IoResult ℤ) (read_link : ℤ → IoResult FilePath)
    (r : PathResolver) where
  unfoldable pub resolve_target : Option Fsid → Option RenameSide → Option (IoResult FilePath)
  resolve_target (some fsid) (some side) =
      some (resolve_dir sys_open read_link r fsid side.handle side.name)
  resolve_target _ _ = none

  unfoldable pub resolve_rename_target : FidEvent → Option (IoResult FilePath)
  resolve_rename_target e = resolve_target e.fsid e.rename_target
