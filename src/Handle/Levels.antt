-- ===== src/Handle/Levels.antt =====
-- The shape of a cache: every filesystem and every handle stands once, and no level is empty.
use fanotify_fid.Base.{
  ◌≡◌, refl, subst, inl, inr, false, some, List, [], ◌∷◌, arith, lookup, insert, remove,
  DistinctKeys, remove-DistinctKeys, insert-DistinctKeys, Bool-cases, Option-cases, All,
}
use fanotify_fid.Bytes.{Bytes}
use fanotify_fid.Fid.Event.{Fsid, FilePath}
use fanotify_fid.Handle.Key.{same_fsid, same_bytes, same_fsid_iff, same_bytes_iff}
use fanotify_fid.Handle.Cache.{
  Level, HandleCache, no_entries, new, or_default, remember, keep_level, forget_in, forget,
  forget_filesystem, clear,
}
use fanotify_fid.Handle.History.{
  Operation, remembering, forgetting, forgetting_filesystem, clearing, apply_operation, run,
}

pub record IsLevel (level : Level) : Type 0 where
  pub handles : DistinctKeys same_bytes level
  pub holds : no_entries level ≡ false

abbrev pub AllLevels : HandleCache → Type 0
AllLevels c = All (λ (e : Fsid × Level). IsLevel e.1) c

pub record IsHandleCache (c : HandleCache) : Type 0 where
  pub fsids : DistinctKeys same_fsid c
  pub levels : AllLevels c

AllLevels-remove : (f : Fsid) (c : HandleCache) → AllLevels c → AllLevels (remove same_fsid f c)
AllLevels-remove f [] h = tt
AllLevels-remove f ((g, level) ∷ c) (h, hs) = elim (Bool-cases (same_fsid f g)) [
  | inl hit ↦ rw hit (AllLevels-remove f c hs)
  | inr miss ↦ rw miss (h, AllLevels-remove f c hs)
]

AllLevels-lookup :
    (f : Fsid) (c : HandleCache) (level : Level)
    → AllLevels c
    → lookup same_fsid f c ≡ some level
    → IsLevel level
AllLevels-lookup f [] level h e = absurd (cc)
AllLevels-lookup f ((g, here) ∷ c) level (h, hs) e = elim (Bool-cases (same_fsid f g)) [
  | inl hit ↦ let same : here ≡ level = ground arith in subst IsLevel same h
  | inr miss ↦ AllLevels-lookup f c level hs (rw miss at e)
]

insert-IsLevel :
    (k : Bytes) (p : FilePath) (level : Level)
    → DistinctKeys same_bytes level
    → IsLevel (insert same_bytes k p level)
insert-IsLevel k p level d = record {
  handles = insert-DistinctKeys same_bytes same_bytes_iff k p level d;
  holds = refl;
}

module _ (c : HandleCache) (h : IsHandleCache c) where
  -- What is written at a filesystem is a level, if what is read there is one.
  insert-IsHandleCache :
      (f : Fsid) (level : Level) → IsLevel level → IsHandleCache (insert same_fsid f level c)
  insert-IsHandleCache f level l = record {
    fsids = insert-DistinctKeys same_fsid same_fsid_iff f level c h.fsids;
    levels = (l, AllLevels-remove f c h.levels);
  }

  remove-IsHandleCache : (f : Fsid) → IsHandleCache (remove same_fsid f c)
  remove-IsHandleCache f = record {
    fsids = remove-DistinctKeys same_fsid same_fsid_iff f c h.fsids;
    levels = AllLevels-remove f c h.levels;
  }

  pub or_default-handles : (f : Fsid) → DistinctKeys same_bytes (or_default (lookup same_fsid f c))
  unfolding or_default
  or_default-handles f = elim (Option-cases (lookup same_fsid f c)) [
    | inl unknown ↦ rw unknown tt
    | inr (level, known) ↦ rw known (AllLevels-lookup f c level h.levels known).handles
  ]

  keep_level-IsHandleCache :
      (f : Fsid) (level : Level)
      → DistinctKeys same_bytes level
      → IsHandleCache (keep_level c f level)
  unfolding keep_level
  keep_level-IsHandleCache f [] d = remove-IsHandleCache f
  keep_level-IsHandleCache f (e ∷ level) d =
      insert-IsHandleCache f (e ∷ level) (record { handles = d; holds = refl })

  forget_in-IsHandleCache :
      (f : Fsid) (k : Bytes) → IsHandleCache (forget_in c f k (lookup same_fsid f c))
  unfolding forget_in
  forget_in-IsHandleCache f k = elim (Option-cases (lookup same_fsid f c)) [
    | inl unknown ↦ rw unknown h
    | inr (level, known) ↦ rw known (
        keep_level-IsHandleCache f (remove same_bytes k level) (
          remove-DistinctKeys same_bytes same_bytes_iff k level
            (AllLevels-lookup f c level h.levels known).handles))
  ]

  pub apply_operation-IsHandleCache : (o : Operation) → IsHandleCache (apply_operation o c)
  unfolding apply_operation remember forget forget_filesystem clear
  apply_operation-IsHandleCache (remembering f k p) =
      insert-IsHandleCache f _ (insert-IsLevel k p _ (or_default-handles f))
  apply_operation-IsHandleCache (forgetting f k) = forget_in-IsHandleCache f k
  apply_operation-IsHandleCache (forgetting_filesystem f) = remove-IsHandleCache f
  apply_operation-IsHandleCache clearing = record { fsids = tt; levels = tt }

pub run-IsHandleCache :
    (os : List Operation) (c : HandleCache) → IsHandleCache c → IsHandleCache (run os c)
unfolding run
run-IsHandleCache [] c h = h
run-IsHandleCache (o ∷ os) c h =
    run-IsHandleCache os (apply_operation o c) (apply_operation-IsHandleCache c h o)

pub new-IsHandleCache : IsHandleCache new
new-IsHandleCache = record { fsids = tt; levels = tt }
