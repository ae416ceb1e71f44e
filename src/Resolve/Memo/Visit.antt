-- ===== src/Resolve/Memo/Visit.antt =====
-- One event: what becomes of it is what `resolve_event` makes of it.
use fanotify_fid.Base.{ℤ, ◌≡◌, refl, ap, ◌∙◌, inl, inr, Bool, Bool-cases, Option, none, some}
use fanotify_fid.Bytes.{Bytes}
use fanotify_fid.Fid.Event.{Fsid, FilePath, FidEvent, RenameSide, has_path}
use fanotify_fid.Handle.Mounts.{Mounts}
use fanotify_fid.Handle.Open.{IoResult, done, failed}
use fanotify_fid.Handle.Store.{PathMemo}
use fanotify_fid.Resolve.Resolver.{
  PathResolver, EventResolution, attach_or, by_self_handle, by_rename_source, by_dfid_name,
  on_known_filesystem, resolve_event,
}
use fanotify_fid.Resolve.Memo.{
  Visit, attach_memo_or, at, memo_by_self_handle, memo_by_rename_source, memo_by_dfid_name,
  memo_on_known_filesystem, resolve_event_memo,
}

-- What became of the event, without the store.
abbrev pub seen_event {ℓ} : {S : Type ℓ} → Visit S → EventResolution × FidEvent
seen_event v = (v.0, v.1)

seen-attach_memo_or {ℓ} :
    {S : Type ℓ} (e : FidEvent) (r : IoResult FilePath) (learn : FilePath → S) (next : Visit S)
    → seen_event (attach_memo_or e r learn next) ≡ attach_or e r (seen_event next)
unfolding attach_memo_or attach_or
seen-attach_memo_or e (done path) learn next = refl
seen-attach_memo_or e (failed error) learn next = refl

module _ {ℓ} {S : Type ℓ} (memo : PathMemo S) (view : S → Fsid → Bytes → Option FilePath)
    (sys_open : ℤ → Bytes → IoResult ℤ) (read_link : ℤ → IoResult FilePath) (mounts : Mounts)
    (fallback : Bool) where
  module _ (s : S) (e : FidEvent) (fsid : Fsid) where
    abbrev r : PathResolver
    r = at memo view sys_open read_link mounts fallback s

    seen-by_self_handle :
        (handle : Option Bytes)
        → seen_event
            (memo_by_self_handle memo view sys_open read_link mounts fallback s e fsid handle)
          ≡ by_self_handle sys_open read_link r e fsid handle
    unfolding memo_by_self_handle by_self_handle
    seen-by_self_handle none = refl
    seen-by_self_handle (some handle) = seen-attach_memo_or e _ _ _

    seen-by_rename_source :
        (source : Option RenameSide)
        → seen_event
            (memo_by_rename_source memo view sys_open read_link mounts fallback s e fsid source)
          ≡ by_rename_source sys_open read_link r e fsid source
    unfolding memo_by_rename_source by_rename_source
    seen-by_rename_source none = seen-by_self_handle e.self_handle
    seen-by_rename_source (some side) =
        seen-attach_memo_or e _ _ _ ∙ ap (attach_or e _) (seen-by_self_handle e.self_handle)

    seen-by_dfid_name :
        (handle : Option Bytes)
        → seen_event
            (memo_by_dfid_name memo view sys_open read_link mounts fallback s e fsid handle)
          ≡ by_dfid_name sys_open read_link r e fsid handle
    unfolding memo_by_dfid_name by_dfid_name
    seen-by_dfid_name none = seen-by_rename_source e.rename_source
    seen-by_dfid_name (some handle) =
        seen-attach_memo_or e _ _ _ ∙ ap (attach_or e _) (seen-by_rename_source e.rename_source)

  seen-on_known_filesystem :
      (s : S) (e : FidEvent) (fsid : Option Fsid)
      → seen_event (memo_on_known_filesystem memo view sys_open read_link mounts fallback s e fsid)
        ≡ on_known_filesystem sys_open read_link
            (at memo view sys_open read_link mounts fallback s)
            e
            fsid
  unfolding memo_on_known_filesystem on_known_filesystem
  seen-on_known_filesystem s e none = refl
  seen-on_known_filesystem s e (some fsid) = seen-by_dfid_name s e fsid e.dfid_name_handle

  -- Teaching the store changes nothing for the event: it is resolved, or not, as the form that
  -- only reads resolves it, with the same path.
  pub resolve_event_memo-resolve_event :
      (s : S) (e : FidEvent)
      → seen_event (resolve_event_memo memo view sys_open read_link mounts fallback s e)
        ≡ resolve_event sys_open read_link (at memo view sys_open read_link mounts fallback s) e
  unfolding resolve_event_memo resolve_event
  resolve_event_memo-resolve_event s e = elim (Bool-cases (has_path e)) [
    | inl old ↦ rw old refl
    | inr fresh ↦ rw fresh (seen-on_known_filesystem s e e.fsid)
  ]
