-- ===== src/Resolve/Outcome.antt =====
-- The path that `resolve_event` attaches, and what a second pass over a batch finds.
use fanotify_fid.Base.{
  ℤ, ◌≡◌, refl, ap, ◌∙◌, Option, none, some, List, [], ◌∷◌, ◌++◌, if◌then◌else◌,
}
use fanotify_fid.Bytes.{Bytes}
use fanotify_fid.Fid.Event.{Fsid, FilePath, FidEvent, RenameSide, set_path, has_path, dfid_name_raw}
use fanotify_fid.Handle.Open.{IoResult, done, failed}
use fanotify_fid.Resolve.Resolver.{
  PathResolver, EventResolution, resolved, already_resolved, nothing_to_resolve, unresolvable,
  attach_or, resolve_handle, resolve_dir, by_self_handle, by_rename_source, by_dfid_name,
  on_known_filesystem, resolve_event,
}

unfoldable pub first_path : List (IoResult FilePath) → Option FilePath
first_path [] = none
first_path (done path ∷ rs) = some path
first_path (failed e ∷ rs) = first_path rs

abbrev pub if_some {ℓ} :
    {A : Type ℓ} → Option A → (A → IoResult FilePath) → List (IoResult FilePath)
if_some none f = []
if_some (some a) f = f a ∷ []

unfoldable pub outcome : FidEvent → Option FilePath → EventResolution × FidEvent
outcome e none = (unresolvable, e)
outcome e (some path) = (resolved, set_path e path)

attach_or-outcome :
    (e : FidEvent) (r : IoResult FilePath) (rs : List (IoResult FilePath))
    → attach_or e r (outcome e (first_path rs)) ≡ outcome e (first_path (r ∷ rs))
unfolding attach_or outcome first_path
attach_or-outcome e (done path) rs = refl
attach_or-outcome e (failed error) rs = refl

module _ (sys_open : ℤ → Bytes → IoResult ℤ) (read_link : ℤ → IoResult FilePath)
    (r : PathResolver) where
  -- The lookups that an event offers, in the order in which they are made.
  unfoldable pub lookups : FidEvent → Fsid → List (IoResult FilePath)
  lookups e fsid =
      if_some e.dfid_name_handle
        (λ handle. resolve_dir sys_open read_link r fsid handle (dfid_name_raw e))
      ++ (if_some e.rename_source
            (λ side. resolve_dir sys_open read_link r fsid side.handle side.name)
          ++ if_some e.self_handle (resolve_handle sys_open read_link r fsid))

  unfoldable pub outcome_on : FidEvent → Option Fsid → EventResolution × FidEvent
  outcome_on e none = (nothing_to_resolve, e)
  outcome_on e (some fsid) = outcome e (first_path (lookups e fsid))

  by_self_handle_lem :
      (e : FidEvent) (fsid : Fsid) (handle : Option Bytes)
      → by_self_handle sys_open read_link r e fsid handle
        ≡ outcome e (first_path (if_some handle (resolve_handle sys_open read_link r fsid)))
  unfolding by_self_handle
  by_self_handle_lem e fsid none = unfold outcome first_path in refl
  by_self_handle_lem e fsid (some handle) =
      ap (attach_or e (resolve_handle sys_open read_link r fsid handle)) (
        let e' : (unresolvable, e) ≡ outcome e (first_path []) =
          unfold outcome first_path in refl in
        e')
      ∙ attach_or-outcome e (resolve_handle sys_open read_link r fsid handle) []

  by_rename_source_lem :
      (e : FidEvent) (fsid : Fsid) (source : Option RenameSide)
      → by_rename_source sys_open read_link r e fsid source
        ≡ outcome e (
            first_path (
              if_some source (λ side. resolve_dir sys_open read_link r fsid side.handle side.name)
              ++ if_some e.self_handle (resolve_handle sys_open read_link r fsid)))
  unfolding by_rename_source
  by_rename_source_lem e fsid none = by_self_handle_lem e fsid e.self_handle
  by_rename_source_lem e fsid (some side) =
      ap (attach_or e _) (by_self_handle_lem e fsid e.self_handle) ∙ attach_or-outcome e _ _

  by_dfid_name_lem :
      (e : FidEvent) (fsid : Fsid) (handle : Option Bytes)
      → by_dfid_name sys_open read_link r e fsid handle
        ≡ outcome e (
            first_path (
              if_some handle (λ h. resolve_dir sys_open read_link r fsid h (dfid_name_raw e))
              ++ (if_some e.rename_source
                    (λ side. resolve_dir sys_open read_link r fsid side.handle side.name)
                  ++ if_some e.self_handle (resolve_handle sys_open read_link r fsid))))
  unfolding by_dfid_name
  by_dfid_name_lem e fsid none = by_rename_source_lem e fsid e.rename_source
  by_dfid_name_lem e fsid (some handle) =
      ap (attach_or e _) (by_rename_source_lem e fsid e.rename_source) ∙ attach_or-outcome e _ _

  on_known_filesystem_lem :
      (e : FidEvent) (fsid : Option Fsid)
      → on_known_filesystem sys_open read_link r e fsid ≡ outcome_on e fsid
  unfolding on_known_filesystem outcome_on lookups
  on_known_filesystem_lem e none = refl
  on_known_filesystem_lem e (some fsid) = by_dfid_name_lem e fsid e.dfid_name_handle

  -- An event that has a path keeps it, and one without a filesystem is left as it is. Any other gets
  -- the first path that its lookups find, those by the directory and the name, by the rename's
  -- source, and by its own handle, in this order; with no path found it is left as it is.
  pub resolve_event-outcome :
      (e : FidEvent)
      → resolve_event sys_open read_link r e
        ≡ (if has_path e then (already_resolved, e) else outcome_on e e.fsid)
  unfolding resolve_event
  resolve_event-outcome e = rw (on_known_filesystem_lem e e.fsid) refl
