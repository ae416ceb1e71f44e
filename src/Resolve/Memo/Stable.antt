-- ===== src/Resolve/Memo/Stable.antt =====
-- One handle resolves to one answer.
use fanotify_fid.Base.{ℤ, ◌≡◌, refl, ◌∙◌, Bool, Option, some}
use fanotify_fid.Bytes.{Bytes}
use fanotify_fid.Fid.Event.{Fsid, FilePath}
use fanotify_fid.Handle.Key.{same_fsid_iff, same_bytes_iff}
use fanotify_fid.Handle.Mounts.{Mounts}
use fanotify_fid.Handle.Open.{IoResult, done, failed}
use fanotify_fid.Handle.Store.{PathMemo}
use fanotify_fid.Resolve.Resolver.{PathResolver, resolve_handle}
use fanotify_fid.Resolve.Lookups.{known}
use fanotify_fid.Resolve.Memo.{at, remember_resolved, resolve_handle_memo}

module _ {ℓ} {S : Type ℓ} (memo : PathMemo S) where
  remembered :
      (s : S) (fsid : Fsid) (handle : Bytes) (path : FilePath)
      → memo.with_path (memo.remember s fsid handle path) fsid handle ≡ some path
  remembered s fsid handle path =
      memo.with_path-remember s fsid fsid handle handle path
      ∙ rw ((same_fsid_iff fsid fsid).1 refl, (same_bytes_iff handle handle).1 refl) refl

  module _ (view : S → Fsid → Bytes → Option FilePath) (sys_open : ℤ → Bytes → IoResult ℤ)
      (read_link : ℤ → IoResult FilePath) (mounts : Mounts) (fallback : Bool) where
    remember_resolved-with_path :
        (s : S) (fsid : Fsid) (handle : Bytes) (r : IoResult FilePath) (path : FilePath)
        → let learned =
            remember_resolved memo view sys_open read_link mounts fallback s fsid handle r in
          learned.0 ≡ done path → memo.with_path learned.1 fsid handle ≡ some path
    unfolding remember_resolved
    remember_resolved-with_path s fsid handle (done p) path e = remembered s fsid handle p ∙ cc
    remember_resolved-with_path s fsid handle (failed error) path e = absurd (cc)

    module _ (s : S) (fsid : Fsid) (handle : Bytes) (path : FilePath) where
      abbrev first : IoResult FilePath × S
      first = resolve_handle_memo memo view sys_open read_link mounts fallback s fsid handle

      first-with_path : first.0 ≡ done path → memo.with_path first.1 fsid handle ≡ some path
      unfolding resolve_handle_memo
      first-with_path e =
          remember_resolved-with_path s fsid handle
            (resolve_handle sys_open read_link (at memo view sys_open read_link mounts fallback s)
              fsid handle)
            path e

      -- Once a handle has been resolved and remembered, it resolves to the same path in any
      -- resolver that reads the store, whatever its mounts, whether or not it may ask the kernel
      -- and whatever the kernel would answer by now; and the path is known without asking.
      pub resolve_handle_memo-resolve_handle :
          (later_open : ℤ → Bytes → IoResult ℤ) (later_link : ℤ → IoResult FilePath)
          (later : PathResolver)
          → first.0 ≡ done path
          → let r = record later { store = memo.with_path first.1 } in
            (resolve_handle later_open later_link r fsid handle ≡ done path)
            × (known r fsid handle ≡ some path)
      unfolding resolve_handle known
      resolve_handle_memo-resolve_handle later_open later_link later e =
          (rw (first-with_path e) refl, first-with_path e)
