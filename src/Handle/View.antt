-- ===== src/Handle/View.antt =====
-- What a cache knows: a partial function of a filesystem and a handle, which every operation updates
-- at the places it names.
use fanotify_fid.Base.{
  ◌≡◌, ◌∙◌, inl, inr, ◌&&◌, Option, none, some, [], ◌∷◌, arith, lookup, insert, remove,
  lookup-insert, lookup-remove, if◌then◌else◌, Option-cases,
}
use fanotify_fid.Bytes.{Bytes}
use fanotify_fid.Fid.Event.{Fsid, FilePath}
use fanotify_fid.Handle.Key.{same_fsid, same_bytes, same_fsid_iff, same_bytes_iff}
use fanotify_fid.Handle.Cache.{
  Level, HandleCache, with_path, path_of, or_default, remember, keep_level, forget_in, forget,
  forget_filesystem,
}

-- A path in a level that may not be there.
abbrev pub in_level : Option Level → Bytes → Option FilePath
in_level none handle = none
in_level (some level) handle = lookup same_bytes handle level

pub path_of_lem :
    (c : HandleCache) (f : Fsid) (h : Bytes) → path_of c f h ≡ in_level (lookup same_fsid f c) h
unfolding path_of with_path
path_of_lem c f h = ground arith

module _ (c : HandleCache) (f g : Fsid) (h k : Bytes) where
  pub path_of-remember :
      (p : FilePath)
      → path_of (remember c f h p) g k
        ≡ (if same_fsid g f && same_bytes k h then some p else path_of c g k)
  unfolding remember or_default
  path_of-remember p = ground (
    arith,
    path_of_lem (remember c f h p) g k,
    path_of_lem c g k,
    lookup-insert same_fsid same_fsid_iff g f
        (insert same_bytes h p (or_default (lookup same_fsid f c))) c,
    lookup-insert same_bytes same_bytes_iff k h p (or_default (lookup same_fsid f c)),
    same_fsid_iff g f,
  )

  pub path_of-forget_filesystem :
      path_of (forget_filesystem c f) g k ≡ (if same_fsid g f then none else path_of c g k)
  unfolding forget_filesystem
  path_of-forget_filesystem = ground (
    arith,
    path_of_lem (remove same_fsid f c) g k,
    path_of_lem c g k,
    lookup-remove same_fsid same_fsid_iff g f c,
  )

  -- A level is dropped only when it answers nothing.
  path_of-keep_level :
      (level : Level)
      → path_of (keep_level c f level) g k
        ≡ (if same_fsid g f then lookup same_bytes k level else path_of c g k)
  unfolding keep_level
  path_of-keep_level [] = ground (
    arith,
    path_of_lem (remove same_fsid f c) g k,
    path_of_lem c g k,
    lookup-remove same_fsid same_fsid_iff g f c,
  )
  path_of-keep_level ((j, p) ∷ level) = ground (
    arith,
    path_of_lem (insert same_fsid f ((j, p) ∷ level) c) g k,
    path_of_lem c g k,
    lookup-insert same_fsid same_fsid_iff g f ((j, p) ∷ level) c,
  )

  pub path_of-forget :
      path_of (forget c f h) g k ≡ (if same_fsid g f && same_bytes k h then none else path_of c g k)
  unfolding forget forget_in
  path_of-forget = elim (Option-cases (lookup same_fsid f c)) [
    | inl unknown ↦
        rw (forget, unknown) (ground (arith, path_of_lem c g k, same_fsid_iff g f, unknown))
    | inr (level, known) ↦
        rw (forget, known)
          (path_of-keep_level (remove same_bytes h level)
            ∙ ground (
              arith,
              path_of_lem c g k,
              lookup-remove same_bytes same_bytes_iff k h level,
              same_fsid_iff g f,
              known,
            ))
  ]
