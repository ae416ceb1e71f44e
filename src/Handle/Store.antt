-- ===== src/Handle/Store.antt =====
-- src/handle.rs: the traits `PathStore` and `PathMemo` as an interface, and the two stores of the
-- crate behind it. A store is read through a shared reference and may change behind it, so its
-- state is passed along.
use fanotify_fid.Base.{◌≡◌, ◌&&◌, Option, none, some, if◌then◌else◌}
use fanotify_fid.Bytes.{Bytes}
use fanotify_fid.Fid.Event.{Fsid, FilePath}
use fanotify_fid.Handle.Key.{same_fsid, same_bytes}
use fanotify_fid.Handle.Cache.{HandleCache, path_of, remember, forget}
use fanotify_fid.Handle.View.{path_of-remember, path_of-forget}

-- `with_path` stands for its answer to a function that keeps the path.
pub record PathMemo {ℓ} (S : Type ℓ) : Type ℓ where
  pub with_path : S → Fsid → Bytes → Option FilePath
  pub remember : S → Fsid → Bytes → FilePath → S
  pub forget : S → Fsid → Bytes → S
  pub with_path-remember :
      (s : S) (f g : Fsid) (h k : Bytes) (p : FilePath)
      → with_path (remember s f h p) g k
        ≡ (if same_fsid g f && same_bytes k h then some p else with_path s g k)
  pub with_path-forget :
      (s : S) (f g : Fsid) (h k : Bytes)
      → with_path (forget s f h) g k
        ≡ (if same_fsid g f && same_bytes k h then none else with_path s g k)

abbrev pub handle_cache : PathMemo HandleCache
handle_cache = record {
  with_path = path_of;
  remember = remember;
  forget = forget;
  with_path-remember = path_of-remember;
  with_path-forget = path_of-forget;
}

-- `NoCache` knows nothing, whatever its state.
unfoldable pub no_cache {ℓ} : {S : Type ℓ} → S → Fsid → Bytes → Option FilePath
no_cache s fsid handle = none
