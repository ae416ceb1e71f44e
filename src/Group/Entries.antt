-- ===== src/Group/Entries.antt =====
-- src/group.rs and src/resolve.rs together: what a program does with a group's events, from the
-- bytes that the kernel writes to the paths.
use fanotify_fid.Base.{
  ℕ, ℤ, negsuc, ◌≡◌, refl, ap, ◌∙◌, false, Option, none, some, List, [], ◌∷◌, ◌++◌, map, All,
  replicate, arith,
}
use fanotify_fid.Bytes.{Bytes, Endian}
use fanotify_fid.Errors.{Result, ok, err}
use fanotify_fid.Errors.Errno
use fanotify_fid.Paths.{push}
use fanotify_fid.Fid.Event.{Fsid, FilePath, FidEvent, new, has_path, set_path, dfid_name_raw}
use fanotify_fid.Fid.Adopt.{adopt_pidfds, reported_pidfd_number}
use fanotify_fid.Fid.Wire.{FileHandle, dfid_name, wire_handle}
use fanotify_fid.Fid.Wire.Event.{Notice, IsNotice, meaning}
use fanotify_fid.Fid.Wire.Absorb.{absorb}
use fanotify_fid.Fid.Wire.RecordWalk.{absorb_all}
use fanotify_fid.Fid.Wire.RoundTrip.{wire_events}
use fanotify_fid.Handle.Open.{IoResult}
use fanotify_fid.Sys.Read.{ReadAnswer, got, failed, ByteVec}
use fanotify_fid.Resolve.Resolver.{
  PathResolver, names_itself, bad_name, enter, attach_or, resolve_dir, by_dfid_name,
  on_known_filesystem, resolve_event,
}
use fanotify_fid.Resolve.Batch.{Resolution, count, resolve_each, resolve_events}
use fanotify_fid.Group.Delivery.{read_events-wire_events}
use fanotify_fid.Group.Same.{observe}
use fanotify_fid.Group.Stateless.{read_events}

-- What the kernel says of an entry of a directory, and where that directory is.
pub record Entry : Type 0 where
  pub mask : ℕ
  pub pid : ℤ
  pub fsid : Fsid
  pub directory : FileHandle
  pub name : Bytes
  pub padding : ℕ
  pub dir_path : FilePath

abbrev pub notice : Entry → Notice
notice x = record {
  mask = x.mask;
  fd = negsuc 0;
  pid = x.pid;
  infos = dfid_name x.fsid x.directory x.name x.padding ∷ [];
}

abbrev pub entry_path : Entry → Option FilePath
entry_path x = some (push x.dir_path x.name)

abbrev pub paths : List FidEvent → List (Option FilePath)
paths = map (λ (e : FidEvent). e.path)

-- `resolver.resolve_events(&mut fan.read_events(&mut buf)?)`, and the paths.
unfoldable pub resolved_paths {ℓ} :
    {X : Type ℓ}
    → (List FidEvent → List FidEvent)
    → Option (Result (List FidEvent) × X)
    → Option (Result (List (Option FilePath)) × X)
resolved_paths resolve none = none
resolved_paths resolve (some (ok es, rest)) = some (ok (paths (resolve es)), rest)
resolved_paths resolve (some (err e, rest)) = some (err e, rest)

module _ (en : Endian) where
  -- The kernel can write the event, and its name is a single component.
  pub record IsEntry (store : Fsid → Bytes → Option FilePath) (x : Entry) : Type 0 where
    pub fits : IsNotice en (notice x)
    pub named : names_itself x.name ≡ false
    pub single : bad_name x.name ≡ false
    pub known : store x.fsid (wire_handle en x.directory) ≡ some x.dir_path

  abbrev reported : Entry → FidEvent
  reported x = record new {
    mask = x.mask;
    pid = x.pid;
    fsid = some x.fsid;
    dfid_name_handle = some (wire_handle en x.directory);
    dfid_name_name = some x.name;
  }

  meaning-notice : (x : Entry) → meaning en (notice x) ≡ reported x
  unfolding meaning absorb_all absorb new
  meaning-notice x = refl

  meanings : (xs : List Entry) → map (meaning en) (map notice xs) ≡ map reported xs
  meanings [] = refl
  meanings (x ∷ xs) = rw (meaning-notice x, meanings xs) refl

  fitting :
      (store : Fsid → Bytes → Option FilePath) (xs : List Entry)
      → All (IsEntry store) xs
      → All (IsNotice en) (map notice xs)
  fitting store [] v = tt
  fitting store (x ∷ xs) v = (v.0.fits, fitting store xs v.1)

  no_pidfds :
      (xs : List Entry) (seen : List ℤ) → adopt_pidfds (map reported xs) seen ≡ map reported xs
  unfolding adopt_pidfds reported_pidfd_number new
  no_pidfds [] seen = refl
  no_pidfds (x ∷ xs) seen = ap (λ es. reported x ∷ es) (no_pidfds xs seen)

  module _ (sys_open : ℤ → Bytes → IoResult ℤ) (read_link : ℤ → IoResult FilePath)
      (r : PathResolver) where
    resolve_event-reported :
        (x : Entry)
        → IsEntry r.store x
        → (resolve_event sys_open read_link r (reported x)).1.path ≡ entry_path x
    unfolding resolve_event has_path new on_known_filesystem by_dfid_name dfid_name_raw resolve_dir
        enter attach_or set_path
    resolve_event-reported x v = ground (arith, v.named, v.single, v.known)

    abbrev after : Entry → Resolution → Resolution
    after x n = count (resolve_event sys_open read_link r (reported x)).0 n

    paths-resolve_each :
        (xs : List Entry) (n : Resolution)
        → All (IsEntry r.store) xs
        → paths (resolve_each sys_open read_link r (map reported xs) n).0 ≡ map entry_path xs
    unfolding resolve_each
    paths-resolve_each [] n v = refl
    paths-resolve_each (x ∷ xs) n v =
        ap (λ p. p ∷ paths (resolve_each sys_open read_link r (map reported xs) (after x n)).0)
          (resolve_event-reported x v.0)
        ∙ ap (λ ps. entry_path x ∷ ps) (paths-resolve_each xs (after x n) v.1)

    -- Events about entries of directories that the store knows, with any name that is one component and
    -- however many signals interrupt the read, come out of a read and of one pass of resolution
    -- each with the path of its directory and its name, whatever the kernel says of handles.
    pub resolve_events-read_events :
        (signals : ℕ) (xs : List Entry) (buf : ByteVec) (answers : List ReadAnswer)
        → All (IsEntry r.store) xs
        → resolved_paths
            (λ es. (resolve_events sys_open read_link r es).0)
            (observe (
              read_events en buf (
                replicate signals (failed Errno.eintr)
                ++ got (wire_events en (map notice xs)) ∷ answers)))
          ≡ some (ok (map entry_path xs), answers)
    unfolding resolved_paths resolve_events
    resolve_events-read_events signals xs buf answers v =
        rw
          (
            read_events-wire_events en signals (map notice xs) buf answers (fitting r.store xs v),
            meanings xs,
            no_pidfds xs [],
          )
          (ap (λ ps. some (ok ps, answers)) (paths-resolve_each xs _ v))
