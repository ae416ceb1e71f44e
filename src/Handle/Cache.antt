-- ===== src/Handle/Cache.antt =====
-- src/handle.rs: `HandleCache`, a map of filesystems to maps of handles to paths. The lock around it
-- is taken for one operation each, so an operation is a step from one map to the next.
use fanotify_fid.Base.{
  ℕ, ◌+◌, Bool, true, false, ◌&&◌, Option, none, some, List, [], ◌∷◌, ◌++◌, map, length, lookup,
  insert, remove, if◌then◌else◌,
}
use fanotify_fid.Bytes.{Bytes}
use fanotify_fid.Fid.Event.{Fsid, FilePath}
use fanotify_fid.Handle.Key.{same_fsid, same_bytes}

abbrev pub Level : Type 0
Level = List (Bytes × FilePath)

abbrev pub HandleCache : Type 0
HandleCache = List (Fsid × Level)

abbrev pub new : HandleCache
new = []

-- `HashMap::is_empty`
abbrev pub no_entries {ℓ} : {A : Type ℓ} → List A → Bool
no_entries [] = true
no_entries (x ∷ xs) = false

unfoldable pub len : HandleCache → ℕ
len [] = 0
len ((f, level) ∷ c) = length level + len c

unfoldable pub is_empty : HandleCache → Bool
is_empty [] = true
is_empty ((f, level) ∷ c) = no_entries level && is_empty c

unfoldable pub filesystems : HandleCache → ℕ
filesystems c = length c

unfoldable pub entries : HandleCache → List (Fsid × Bytes × FilePath)
entries [] = []
entries ((f, level) ∷ c) = map (λ e. (f, e.0, e.1)) level ++ entries c

unfoldable pub with_path {ℓ} : {R : Type ℓ} → HandleCache → Fsid → Bytes → (FilePath → R) → Option R
with_path c fsid handle f = elim (lookup same_fsid fsid c) [
  | none ↦ none
  | some level ↦ elim (lookup same_bytes handle level) [ none ↦ none | some path ↦ some (f path) ]
]

unfoldable pub path_of : HandleCache → Fsid → Bytes → Option FilePath
path_of c fsid handle = with_path c fsid handle (λ path. path)

-- `entry(fsid).or_default()`
unfoldable pub or_default : Option Level → Level
or_default none = []
or_default (some level) = level

unfoldable pub remember : HandleCache → Fsid → Bytes → FilePath → HandleCache
remember c fsid handle path =
    insert same_fsid fsid (insert same_bytes handle path (or_default (lookup same_fsid fsid c))) c

-- A level that `handles.remove` left: dropped if it holds nothing more.
unfoldable pub keep_level : HandleCache → Fsid → Level → HandleCache
keep_level c fsid level =
    if no_entries level then remove same_fsid fsid c else insert same_fsid fsid level c

-- `map.get_mut(&fsid)` has found a level, or not.
unfoldable pub forget_in : HandleCache → Fsid → Bytes → Option Level → HandleCache
forget_in c fsid handle none = c
forget_in c fsid handle (some level) = keep_level c fsid (remove same_bytes handle level)

unfoldable pub forget : HandleCache → Fsid → Bytes → HandleCache
forget c fsid handle = forget_in c fsid handle (lookup same_fsid fsid c)

unfoldable pub forget_filesystem : HandleCache → Fsid → HandleCache
forget_filesystem c fsid = remove same_fsid fsid c

unfoldable pub clear : HandleCache → HandleCache
clear c = []
