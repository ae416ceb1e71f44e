-- ===== src/Resolve/Memo.antt =====
-- src/resolve.rs: the forms that teach a store, `resolve_handle_memo`, `resolve_event_memo` and
-- `resolve_events_memo`. The store and what it learns are one state: `view` is how the resolver's
-- store answers at it, and `memo` is the store that is taught, which may be the same one.
pub mod Visit
pub mod Learns
pub mod Passes
pub mod Idle
pub mod Settled
pub mod Stable
use fanotify_fid.Base.{
  ℕ, ℤ, ◌+◌, ◌<◌, ◌≡◌, ◌==◌, Bool, Option, none, some, List, [], ◌∷◌, if◌then◌else◌,
}
use fanotify_fid.Bytes.{Bytes}
use fanotify_fid.Fid.Event.{Fsid, FilePath, FidEvent, RenameSide, set_path, has_path, dfid_name_raw}
use fanotify_fid.Handle.Mounts.{Mounts}
use fanotify_fid.Handle.Open.{IoResult, done, failed}
use fanotify_fid.Handle.Store.{PathMemo}
use fanotify_fid.Resolve.Resolver.{
  PathResolver, EventResolution, resolved, already_resolved, nothing_to_resolve, unresolvable,
  resolve_handle, resolve_dir,
}
use fanotify_fid.Resolve.Batch.{Resolution, count}

-- The result of one event: what became of it, the event, and the store.
abbrev pub Visit {ℓ} : Type ℓ → Type ℓ
Visit S = EventResolution × FidEvent × S

-- A step that found a path attaches it and teaches the store; otherwise the next step is taken.
unfoldable pub attach_memo_or {ℓ} :
    {S : Type ℓ} → FidEvent → IoResult FilePath → (FilePath → S) → Visit S → Visit S
attach_memo_or e (done path) learn next = (resolved, set_path e path, learn path)
attach_memo_or e (failed error) learn next = next

module _ {ℓ} {S : Type ℓ} (memo : PathMemo S) (view : S → Fsid → Bytes → Option FilePath)
    (sys_open : ℤ → Bytes → IoResult ℤ) (read_link : ℤ → IoResult FilePath) (mounts : Mounts)
    (fallback : Bool) where
  abbrev pub at : S → PathResolver
  at s = record { store = view s; mounts = mounts; syscall_fallback = fallback }

  unfoldable pub remember_resolved : S → Fsid → Bytes → IoResult FilePath → IoResult FilePath × S
  remember_resolved s fsid handle (done path) = (done path, memo.remember s fsid handle path)
  remember_resolved s fsid handle (failed e) = (failed e, s)

  unfoldable pub resolve_handle_memo : S → Fsid → Bytes → IoResult FilePath × S
  resolve_handle_memo s fsid handle =
      remember_resolved s fsid handle (resolve_handle sys_open read_link (at s) fsid handle)

  unfoldable pub remember_if : S → Fsid → Option Bytes → FilePath → S
  remember_if s fsid none path = s
  remember_if s fsid (some handle) path = memo.remember s fsid handle path

  unfoldable pub memo_by_self_handle : S → FidEvent → Fsid → Option Bytes → Visit S
  memo_by_self_handle s e fsid none = (unresolvable, e, s)
  memo_by_self_handle s e fsid (some handle) =
      attach_memo_or e (resolve_handle sys_open read_link (at s) fsid handle)
        (memo.remember s fsid handle) (unresolvable, e, s)

  unfoldable pub memo_by_rename_source : S → FidEvent → Fsid → Option RenameSide → Visit S
  memo_by_rename_source s e fsid none = memo_by_self_handle s e fsid e.self_handle
  memo_by_rename_source s e fsid (some side) =
      attach_memo_or e (resolve_dir sys_open read_link (at s) fsid side.handle side.name)
        (λ path. s) (memo_by_self_handle s e fsid e.self_handle)

  unfoldable pub memo_by_dfid_name : S → FidEvent → Fsid → Option Bytes → Visit S
  memo_by_dfid_name s e fsid none = memo_by_rename_source s e fsid e.rename_source
  memo_by_dfid_name s e fsid (some handle) =
      attach_memo_or e (resolve_dir sys_open read_link (at s) fsid handle (dfid_name_raw e))
        (remember_if s fsid e.self_handle) (memo_by_rename_source s e fsid e.rename_source)

  unfoldable pub memo_on_known_filesystem : S → FidEvent → Option Fsid → Visit S
  memo_on_known_filesystem s e none = (nothing_to_resolve, e, s)
  memo_on_known_filesystem s e (some fsid) = memo_by_dfid_name s e fsid e.dfid_name_handle

  unfoldable pub resolve_event_memo : S → FidEvent → Visit S
  resolve_event_memo s e =
      if has_path e then (already_resolved, e, s) else memo_on_known_filesystem s e e.fsid

  -- The `for` loop of one pass, with the counts so far.
  unfoldable pub memo_each : List FidEvent → S → Resolution → List FidEvent × S × Resolution
  memo_each [] s n = ([], s, n)
  memo_each (e ∷ es) s n =
      let first = resolve_event_memo s e in
      let rest = memo_each es first.2 (count first.0 n) in (first.1 ∷ rest.0, rest.1, rest.2)
