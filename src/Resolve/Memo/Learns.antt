-- ===== src/Resolve/Memo/Learns.antt =====
-- What the store learns from an event: the event's own handle, and no other.
use fanotify_fid.Base.{
  ℤ, ◌≡◌, refl, ◌∙◌, inl, inr, Bool, true, false, ◌&&◌, Bool-cases, Option, none, some, arith,
  if◌then◌else◌,
}
use fanotify_fid.Bytes.{Bytes}
use fanotify_fid.Fid.Event.{Fsid, FilePath, FidEvent, RenameSide, set_path, has_path}
use fanotify_fid.Handle.Key.{same_fsid, same_bytes}
use fanotify_fid.Handle.Mounts.{Mounts}
use fanotify_fid.Handle.Open.{IoResult, done, failed}
use fanotify_fid.Handle.Store.{PathMemo}
use fanotify_fid.Resolve.Resolver.{EventResolution, resolved}
use fanotify_fid.Resolve.Memo.{
  Visit, attach_memo_or, memo_by_self_handle, memo_by_rename_source, memo_by_dfid_name,
  memo_on_known_filesystem, resolve_event_memo, remember_if,
}

-- Is a key of the store the event's own handle, on the event's filesystem?
unfoldable pub own_key : Option Fsid → Option Bytes → Fsid → Bytes → Bool
own_key none handle g k = false
own_key (some fsid) none g k = false
own_key (some fsid) (some handle) g k = same_fsid g fsid && same_bytes k handle

unfoldable pub is_resolved : EventResolution → Bool
is_resolved resolved = true
is_resolved _ = false

pub attach_memo_or_inv {ℓ κ} :
    {S : Type ℓ} (P : Visit S → Type κ) (e : FidEvent) (r : IoResult FilePath)
    (learn : FilePath → S) (next : Visit S)
    → ((path : FilePath) → P (resolved, set_path e path, learn path))
    → P next
    → P (attach_memo_or e r learn next)
unfolding attach_memo_or
attach_memo_or_inv P e (done path) learn next found otherwise = found path
attach_memo_or_inv P e (failed error) learn next found otherwise = otherwise

module _ {ℓ} {S : Type ℓ} (memo : PathMemo S) (view : S → Fsid → Bytes → Option FilePath)
    (sys_open : ℤ → Bytes → IoResult ℤ) (read_link : ℤ → IoResult FilePath) (mounts : Mounts)
    (fallback : Bool) (s : S) (g : Fsid) (k : Bytes) where
  with_path-remember_if :
      (fsid : Fsid) (handle : Option Bytes) (path : FilePath)
      → memo.with_path
          (remember_if memo view sys_open read_link mounts fallback s fsid handle path)
          g
          k
        ≡ (if own_key (some fsid) handle g k then some path else memo.with_path s g k)
  unfolding remember_if own_key
  with_path-remember_if fsid none path = refl
  with_path-remember_if fsid (some handle) path = memo.with_path-remember s fsid g handle k path

  -- A visit that has taught the store the path of `own`, if it found one.
  abbrev Taught : Bool → Visit S → Type 0
  Taught own v =
      memo.with_path v.2 g k ≡ (if own && is_resolved v.0 then v.1.path else memo.with_path s g k)

  module _ (e : FidEvent) where
    abbrev visit : Visit S
    visit = resolve_event_memo memo view sys_open read_link mounts fallback s e

    self_handle-Taught :
        (fsid : Fsid) (handle : Option Bytes)
        → Taught
            (own_key (some fsid) handle g k)
            (memo_by_self_handle memo view sys_open read_link mounts fallback s e fsid handle)
    unfolding memo_by_self_handle own_key is_resolved
    self_handle-Taught fsid none = refl
    self_handle-Taught fsid (some handle) =
        attach_memo_or_inv (Taught (same_fsid g fsid && same_bytes k handle)) e _ _ _
          (λ path.
            unfold set_path in (memo.with_path-remember s fsid g handle k path ∙ ground arith))
          (ground arith)

    rename_source-Taught :
        (fsid : Fsid) (source : Option RenameSide)
        → source ≡ none
        → Taught
            (own_key (some fsid) e.self_handle g k)
            (memo_by_rename_source memo view sys_open read_link mounts fallback s e fsid source)
    unfolding memo_by_rename_source
    rename_source-Taught fsid none no_rename = self_handle-Taught fsid e.self_handle
    rename_source-Taught fsid (some side) no_rename = absurd (cc)

    dfid_name-Taught :
        (fsid : Fsid) (dir : Option Bytes)
        → e.rename_source ≡ none
        → Taught
            (own_key (some fsid) e.self_handle g k)
            (memo_by_dfid_name memo view sys_open read_link mounts fallback s e fsid dir)
    unfolding memo_by_dfid_name
    dfid_name-Taught fsid none no_rename = rename_source-Taught fsid e.rename_source no_rename
    dfid_name-Taught fsid (some dir) no_rename =
        attach_memo_or_inv (Taught (own_key (some fsid) e.self_handle g k)) e _ _ _
          (λ path.
            unfold set_path is_resolved in
            (with_path-remember_if fsid e.self_handle path ∙ ground arith))
          (rename_source-Taught fsid e.rename_source no_rename)

    known_filesystem-Taught :
        (fsid : Option Fsid)
        → e.rename_source ≡ none
        → Taught
            (own_key fsid e.self_handle g k)
            (memo_on_known_filesystem memo view sys_open read_link mounts fallback s e fsid)
    unfolding memo_on_known_filesystem own_key
    known_filesystem-Taught none no_rename = refl
    known_filesystem-Taught (some fsid) no_rename =
        unfold own_key in dfid_name-Taught fsid e.dfid_name_handle no_rename

    -- An event that is no rename teaches the store its own handle, with the path that it got, if it
    -- got one; whatever else the store knew, or did not know, is as before, the directory's handle
    -- included.
    pub resolve_event_memo-learns :
        e.rename_source ≡ none
        → memo.with_path visit.2 g k ≡ (
            if own_key e.fsid e.self_handle g k && is_resolved visit.0
            then visit.1.path
            else memo.with_path s g k)
    unfolding resolve_event_memo is_resolved
    resolve_event_memo-learns no_rename = elim (Bool-cases (has_path e)) [
      | inl old ↦ rw old (ground arith)
      | inr fresh ↦ rw fresh (known_filesystem-Taught e.fsid no_rename)
    ]
