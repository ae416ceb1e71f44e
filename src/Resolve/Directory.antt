-- ===== src/Resolve/Directory.antt =====
-- An entry of a directory, by the directory and its name.
use fanotify_fid.Base.{
  ℕ, ℤ, ◌⊎◌, inl, inr, Bool-cases, ◌==◌, ◌≡◌, ◌≢◌, refl, ap, ◌∙◌, not, ◌&&◌, true, false, [], ◌∷◌,
  ◌++◌, All, if◌then◌else◌, arith,
}
use fanotify_fid.Bytes.{Bytes}
use fanotify_fid.Fid.Event.{Fsid, FilePath}
use fanotify_fid.Paths.{contains_byte, push, is_absolute, ends_in_separator}
use fanotify_fid.Handle.Key.{same_bytes, same_bytes_iff}
use fanotify_fid.Handle.Cache.{no_entries}
use fanotify_fid.Handle.Open.{IoResult, done, failed, invalid_input}
use fanotify_fid.Resolve.Resolver.{
  PathResolver, names_itself, bad_name, enter, map_done, resolve_handle, resolve_dir,
}

-- A byte that stands somewhere in a name.
pub data Has (b : ℕ) : Bytes → Type 0 where
  here : {c : ℕ} {cs : Bytes} → c ≡ b → Has b (c ∷ cs)
  there : {c : ℕ} {cs : Bytes} → Has b cs → Has b (c ∷ cs)

-- What a name stands for: the directory itself, no single component, or one.
pub data EntryName (name : Bytes) : Type 0 where
  empty : name ≡ [] → EntryName name
  dot : name ≡ 46 ∷ [] → EntryName name
  separated : Has 47 name → EntryName name
  with_nul : Has 0 name → EntryName name
  dot_dot : name ≡ 46 ∷ 46 ∷ [] → EntryName name
  component :
      All (λ b. (b ≢ 47) × (b ≢ 0)) name
      → name ≢ []
      → name ≢ 46 ∷ []
      → name ≢ 46 ∷ 46 ∷ []
      → EntryName name

-- The entry's path: one separator between the directory and the name.
unfoldable pub joined : Bytes → FilePath → FilePath
joined name dir = if ends_in_separator dir then dir ++ name else dir ++ (47 ∷ name)

-- What becomes of the directory's own result.
unfoldable pub entered : (name : Bytes) → EntryName name → IoResult FilePath → IoResult FilePath
entered name (empty e) dir = dir
entered name (dot e) dir = dir
entered name (separated h) dir = failed invalid_input
entered name (with_nul h) dir = failed invalid_input
entered name (dot_dot e) dir = failed invalid_input
entered name (component h e d dd) (done dir) = done (joined name dir)
entered name (component h e d dd) (failed error) = failed error

Has-contains_byte : (b : ℕ) (name : Bytes) → Has b name → contains_byte b name ≡ true
Has-contains_byte b [] h = elim h [ ]
Has-contains_byte b (c ∷ cs) (here e) = ground (arith, e)
Has-contains_byte b (c ∷ cs) (there h) = ground (arith, Has-contains_byte b cs h)

All-contains_byte :
    (name : Bytes)
    → All (λ b. (b ≢ 47) × (b ≢ 0)) name
    → (contains_byte 47 name ≡ false) × (contains_byte 0 name ≡ false)
All-contains_byte [] h = (refl, refl)
All-contains_byte (c ∷ cs) h =
    let rest = All-contains_byte cs h.1 in
    (ground (arith, h.0.0, rest), ground (arith, h.0.1, rest))

differs : (a b : Bytes) → a ≢ b → same_bytes a b ≡ false
differs a b h = ground (arith, same_bytes_iff a b, h)

no_entries-nonempty : (name : Bytes) → name ≢ [] → no_entries name ≡ false
no_entries-nonempty [] h = absurd (h refl)
no_entries-nonempty (c ∷ cs) h = refl

not_absolute : (name : Bytes) → contains_byte 47 name ≡ false → is_absolute name ≡ false
unfolding is_absolute
not_absolute [] h = refl
not_absolute (c ∷ cs) h = ground (arith, h)

not_itself :
    (b : ℕ) (name : Bytes) → b ≢ 46 → contains_byte b name ≡ true → names_itself name ≡ false
unfolding names_itself
not_itself b [] d h = cc
not_itself b (c ∷ []) d h = ground (arith, d, h)
not_itself b (c ∷ e ∷ cs) d h = ground arith

module _ (sys_open : ℤ → Bytes → IoResult ℤ) (read_link : ℤ → IoResult FilePath)
    (r : PathResolver) where
  factored :
      (fsid : Fsid) (handle name : Bytes)
      → resolve_dir sys_open read_link r fsid handle name ≡ (
          if not (names_itself name) && bad_name name
          then failed invalid_input
          else map_done (enter name) (resolve_handle sys_open read_link r fsid handle))
  unfolding resolve_dir resolve_handle map_done
  factored fsid handle name = ground arith

  map_done_same :
      (f : FilePath → FilePath) (x : IoResult FilePath)
      → ((p : FilePath) → f p ≡ p)
      → map_done f x ≡ x
  unfolding map_done
  map_done_same f (done p) h = ap done (h p)
  map_done_same f (failed e) h = refl

  module _ (fsid : Fsid) (handle name : Bytes) where
    abbrev found : IoResult FilePath
    found = resolve_handle sys_open read_link r fsid handle

    abbrev here_or_below : IoResult FilePath
    here_or_below = resolve_dir sys_open read_link r fsid handle name

    itself : names_itself name ≡ true → here_or_below ≡ found
    itself h =
        factored fsid handle name
        ∙ rw h (map_done_same (enter name) found (λ p. unfold enter in rw h refl))

    refused :
        names_itself name ≡ false → bad_name name ≡ true → here_or_below ≡ failed invalid_input
    refused h bad = factored fsid handle name ∙ rw (h, bad) refl

    refused_by :
        (b : ℕ)
        → b ≢ 46
        → contains_byte b name ≡ true
        → bad_name name ≡ true
        → here_or_below ≡ failed invalid_input
    refused_by b d h bad = refused (not_itself b name d h) bad

    enter-joined :
        names_itself name ≡ false
        → contains_byte 47 name ≡ false
        → (dir : FilePath) → enter name dir ≡ joined name dir
    unfolding enter push joined
    enter-joined h plain dir = rw (h, not_absolute name plain) refl

    below :
        names_itself name ≡ false
        → bad_name name ≡ false
        → contains_byte 47 name ≡ false
        → here_or_below ≡ map_done (joined name) found
    below h bad plain =
        factored fsid handle name
        ∙ rw (h, bad) (ap (λ f. map_done f found) (λ i. λ dir. enter-joined h plain dir i))

    map_done-entered :
        (sort : All (λ b. (b ≢ 47) × (b ≢ 0)) name) (e : name ≢ []) (d : name ≢ 46 ∷ [])
        (dd : name ≢ 46 ∷ 46 ∷ []) (x : IoResult FilePath)
        → map_done (joined name) x ≡ entered name (component sort e d dd) x
    unfolding entered map_done
    map_done-entered sort e d dd (done dir) = refl
    map_done-entered sort e d dd (failed error) = refl

    -- The empty name and `.` give the result for the directory's own handle. A name with a
    -- separator or a NUL in it, and `..`, are refused, whatever the handle. Any other name gives the
    -- directory's path with one separator and the name behind it, or the directory's failure.
    pub resolve_dir-entered :
        (sort : EntryName name)
        → resolve_dir sys_open read_link r fsid handle name
          ≡ entered name sort (resolve_handle sys_open read_link r fsid handle)
    unfolding entered
    resolve_dir-entered (empty e) = itself (unfold names_itself in rw e refl)
    resolve_dir-entered (dot e) = itself (unfold names_itself in rw e refl)
    resolve_dir-entered (separated h) =
        let c = Has-contains_byte 47 name h in
        refused_by 47 (λ x. absurd (omega (arith, x))) c (unfold bad_name in rw c refl)
    resolve_dir-entered (with_nul h) =
        let c = Has-contains_byte 0 name h in
        refused_by 0 (λ x. absurd (omega (arith, x))) c (unfold bad_name in ground (arith, c))
    resolve_dir-entered (dot_dot e) =
        refused (unfold names_itself in rw e refl) (unfold bad_name in rw e refl)
    resolve_dir-entered (component h e d dd) =
        let plain = All-contains_byte name h in
        below
          (unfold names_itself in
            ground (arith, no_entries-nonempty name e, differs name (46 ∷ []) d))
          (unfold bad_name in ground (arith, plain.0, plain.1, differs name (46 ∷ 46 ∷ []) dd))
          plain.0
        ∙ map_done-entered h e d dd found

find_byte : (b : ℕ) (name : Bytes) → Has b name ⊎ All (λ c. c ≢ b) name
find_byte b [] = inr tt
find_byte b (c ∷ cs) = elim (Bool-cases (c == b)) [
  | inl e ↦ inl (here (ground (arith, e)))
  | inr d ↦ elim (find_byte b cs) [
    | inl h ↦ inl (there h)
    | inr h ↦ inr ((λ e. absurd (ground (arith, d, e))), h)
  ]
]

All-plain :
    (name : Bytes)
    → All (λ b. b ≢ 47) name
    → All (λ b. b ≢ 0) name
    → All (λ b. (b ≢ 47) × (b ≢ 0)) name
All-plain [] p q = tt
All-plain (c ∷ cs) p q = ((p.0, q.0), All-plain cs p.1 q.1)

decide_bytes : (a b : Bytes) → (a ≡ b) ⊎ (a ≢ b)
decide_bytes a b = elim (Bool-cases (same_bytes a b)) [
  | inl e ↦ inl ((same_bytes_iff a b).0 e)
  | inr d ↦ inr (λ e. absurd (ground (arith, d, (same_bytes_iff a b).1 e)))
]

-- Every name is of one of these sorts.
entry_name : (name : Bytes) → EntryName name
entry_name name = elim (find_byte 47 name) [
  | inl h ↦ separated h
  | inr plain ↦ elim (find_byte 0 name) [
    | inl h ↦ with_nul h
    | inr no_nul ↦ elim (decide_bytes name []) [
      | inl e ↦ empty e
      | inr ne ↦ elim (decide_bytes name (46 ∷ [])) [
        | inl e ↦ dot e
        | inr nd ↦ elim (decide_bytes name (46 ∷ 46 ∷ [])) [
          | inl e ↦ dot_dot e
          | inr ndd ↦ component (All-plain name plain no_nul) ne nd ndd
        ]
      ]
    ]
  ]
]
