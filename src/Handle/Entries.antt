-- ===== src/Handle/Entries.antt =====
-- The entries of a cache, copied out, and the three counts that a cache gives.
use fanotify_fid.Base.{
  ◌==◌, ◌≡◌, refl, sym, ◌∙◌, ap, inl, inr, ◌&&◌, Option, none, some, List, [], ◌∷◌, ◌++◌, map,
  length, length-append, arith, lookup, if◌then◌else◌, Bool-cases, or_else, DistinctKeys,
}
use fanotify_fid.Bytes.{Bytes}
use fanotify_fid.Fid.Event.{Fsid, FilePath}
use fanotify_fid.Handle.Key.{same_fsid, same_bytes, same_fsid_iff}
use fanotify_fid.Handle.Cache.{
  Level, HandleCache, new, len, is_empty, filesystems, entries, path_of,
}
use fanotify_fid.Handle.View.{in_level, path_of_lem}
use fanotify_fid.Handle.History.{Operation, run}
use fanotify_fid.Handle.Levels.{IsHandleCache, run-IsHandleCache, new-IsHandleCache}

unfoldable pub find_entry : Fsid → Bytes → List (Fsid × Bytes × FilePath) → Option FilePath
find_entry g k [] = none
find_entry g k ((f, h, p) ∷ es) =
    let rest = find_entry g k es in if same_fsid g f && same_bytes k h then some p else rest

find_entry-append :
    (g f : Fsid) (k : Bytes) (level : Level) (es : List (Fsid × Bytes × FilePath))
    → find_entry g k (map (λ e. (f, e.0, e.1)) level ++ es) ≡ (
        if same_fsid g f
        then or_else (lookup same_bytes k level) (find_entry g k es)
        else find_entry g k es)
unfolding find_entry
find_entry-append g f k [] es = ground arith
find_entry-append g f k ((h, p) ∷ level) es = ground (arith, find_entry-append g f k level es)

find_entry-entries :
    (g : Fsid) (k : Bytes) (c : HandleCache)
    → DistinctKeys same_fsid c
    → find_entry g k (entries c) ≡ in_level (lookup same_fsid g c) k
unfolding entries find_entry
find_entry-entries g k [] d = refl
find_entry-entries g k ((f, level) ∷ c) (once, d) =
    find_entry-append g f k level (entries c) ∙ elim (Bool-cases (same_fsid g f)) [
      | inl hit ↦
          let unknown : lookup same_fsid g c ≡ none =
            ap (λ x. lookup same_fsid x c) ((same_fsid_iff g f).0 hit) ∙ once in
          rw hit (ground (arith, find_entry-entries g k c d, unknown))
      | inr miss ↦ rw miss (find_entry-entries g k c d)
    ]

length-map {ℓ κ} :
    {A : Type ℓ} {B : Type κ} (f : A → B) (xs : List A) → length (map f xs) ≡ length xs
length-map f [] = refl
length-map f (x ∷ xs) = omega (arith, length-map f xs)

length-entries : (c : HandleCache) → length (entries c) ≡ len c
unfolding entries len
length-entries [] = refl
length-entries ((f, level) ∷ c) = omega (
  arith,
  length-append (map (λ (e : Bytes × FilePath). (f, e.0, e.1)) level) (entries c),
  length-map {B = Fsid × Bytes × FilePath} (λ (e : Bytes × FilePath). (f, e.0, e.1)) level,
  length-entries c,
)

pub is_empty-len : (c : HandleCache) → is_empty c ≡ (len c == 0)
unfolding is_empty len
is_empty-len [] = refl
is_empty-len ((f, []) ∷ c) = ground (arith, is_empty-len c)
is_empty-len ((f, e ∷ level) ∷ c) = ground arith

is_empty-filesystems : (c : HandleCache) → IsHandleCache c → is_empty c ≡ (filesystems c == 0)
unfolding is_empty filesystems
is_empty-filesystems [] h = refl
is_empty-filesystems ((f, level) ∷ c) h = ground (arith, h.levels.0.holds)

-- In a cache after any operations: its entries answer each handle as the cache does, and are as
-- many as it counts; and it counts no handle, and no filesystem, exactly if it says that it is
-- empty.
pub entries-path_of :
    (os : List Operation) (g : Fsid) (k : Bytes)
    → let c = run os new in
      (find_entry g k (entries c) ≡ path_of c g k)
      × (length (entries c) ≡ len c)
      × (is_empty c ≡ (len c == 0))
      × (is_empty c ≡ (filesystems c == 0))
entries-path_of os g k =
    let c = run os new in
    let h = run-IsHandleCache os new new-IsHandleCache in
    (
      find_entry-entries g k c h.fsids ∙ sym (path_of_lem c g k),
      length-entries c,
      is_empty-len c,
      is_empty-filesystems c h,
    )
