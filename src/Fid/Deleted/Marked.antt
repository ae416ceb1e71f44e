-- ===== src/Fid/Deleted/Marked.antt =====
-- A path whose names carry the marker where their objects are gone.
use mathlib.Core.List.{append-nil, append_assoc}
use fanotify_fid.Base.{
  ◌-◌, ◌≡◌, refl, sym, ◌∙◌, ap, Bool, true, false, ◌||◌, some, List, [], ◌∷◌, ◌++◌, map, All, arith,
  inl, inr, Bool-cases, if◌then◌else◌, length, le→leb, length-append, take-append_left,
  drop-append_left,
}
use fanotify_fid.Bytes.{Bytes}
use fanotify_fid.Fid.Event.{FilePath, FidEvent, set_path}
use fanotify_fid.Handle.Key.{same_bytes_iff}
use fanotify_fid.Paths.{
  Component, root_dir, normal, contains_byte, segment, components, push, as_os_str, is_absolute,
  ends_in_separator,
}
use fanotify_fid.Paths.Names.{
  IsName, below, absolute, components-absolute, push-name, ends_in_separator-name,
}
use fanotify_fid.Fid.Deleted.{
  strip_suffix, deleted_marker, ends_with, ends_with_deleted_marker, marked, any_marked,
  carries_deleted_marker, path_is_deleted, is_deleted, Cleaning, push_stripped, push_component,
  push_each, cleaned_or, without_marker, without_deleted_suffix,
}

-- A name, and whether its object is gone.
pub record Entry : Type 0 where
  pub name : Bytes
  pub gone : Bool

unfoldable pub shown : Entry → Bytes
shown e = if e.gone then e.name ++ deleted_marker else e.name

unfoldable pub any_gone : List Entry → Bool
any_gone [] = false
any_gone (e ∷ es) = e.gone || any_gone es

-- Only the name of an object that is gone ends in the marker.
pub record IsEntry (e : Entry) : Type 0 where
  pub is_name : IsName e.name
  pub unmarked : e.gone ≡ false → ends_with_deleted_marker e.name ≡ false

length-marked : (s suffix : Bytes) → length (s ++ suffix) - length suffix ≡ length s
length-marked s suffix = omega (arith, length-append s suffix)

ends_with-append : (s suffix : Bytes) → ends_with (s ++ suffix) suffix ≡ true
unfolding ends_with
ends_with-append s suffix =
    rw (le→leb (length suffix) (length (s ++ suffix)) (omega (arith, length-append s suffix))) (
      rw (drop-append_left (length (s ++ suffix) - length suffix) s suffix (length-marked s suffix))
        ((same_bytes_iff suffix suffix).1 refl))

strip_suffix-append : (s suffix : Bytes) → strip_suffix (s ++ suffix) suffix ≡ some s
unfolding strip_suffix
strip_suffix-append s suffix = rw (ends_with-append s suffix) (
    ap some
      (take-append_left (length (s ++ suffix) - length suffix) s suffix (length-marked s suffix)))

no_separator-marked :
    (name : Bytes)
    → contains_byte 47 name ≡ false
    → contains_byte 47 (name ++ deleted_marker) ≡ false
no_separator-marked [] h = refl
no_separator-marked (b ∷ bs) h = let rest = no_separator-marked bs (ground arith) in ground arith

segment-marked :
    (name : Bytes) → segment (name ++ deleted_marker) ≡ some (normal (name ++ deleted_marker))
unfolding segment
segment-marked [] = refl
segment-marked (a ∷ []) = ground arith
segment-marked (a ∷ b ∷ []) = ground arith
segment-marked (a ∷ b ∷ c ∷ cs) = ground arith

shown-IsName : (e : Entry) → IsEntry e → IsName (shown e)
unfolding shown
shown-IsName e h = elim (Bool-cases e.gone) [
  | inl gone ↦ rw gone (record {
    no_separator = no_separator-marked e.name h.is_name.no_separator;
    one_component = segment-marked e.name;
  })
  | inr there ↦ rw there h.is_name
]

push_stripped-shown :
    (e : Entry) (w : Cleaning)
    → IsEntry e
    → push_stripped (shown e) (strip_suffix (shown e) deleted_marker) w
      ≡ (push w.0 e.name, w.1 || e.gone)
unfolding shown
push_stripped-shown e w h = elim (Bool-cases e.gone) [
  | inl gone ↦
      rw gone
        (rw (strip_suffix-append e.name deleted_marker) (unfold push_stripped in ground arith))
  | inr there ↦ rw there (
      let unmarked = h.unmarked there in
      unfold strip_suffix push_stripped ends_with_deleted_marker in ground arith)
]

abbrev pub names : List Entry → List Bytes
names es = map (λ (e : Entry). e.name) es

abbrev shown_components : List Entry → List Component
shown_components es = map normal (map shown es)

push_component-shown :
    (e : Entry) (p : FilePath) (changed : Bool)
    → IsEntry e
    → push_component (normal (shown e)) (p, changed)
      ≡ (if ends_in_separator p then p ++ e.name else p ++ (47 ∷ e.name), changed || e.gone)
unfolding push_component
push_component-shown e p changed h =
    push_stripped-shown e (p, changed) h ∙ rw (push-name p e.name h.is_name) refl

below-append :
    (p : FilePath) (name : Bytes) (es : List Entry)
    → (p ++ (47 ∷ name)) ++ below (names es) ≡ p ++ (47 ∷ (name ++ below (names es)))
below-append p name es = append_assoc p (47 ∷ name) (below (names es))

ends_in_separator-entry :
    (p : FilePath) (e : Entry) → IsEntry e → ends_in_separator (p ++ (47 ∷ e.name)) ≡ false
ends_in_separator-entry p e h =
    ap ends_in_separator (sym (append_assoc p (47 ∷ []) e.name))
    ∙ ends_in_separator-name (p ++ 47 ∷ []) e.name h.is_name

push_each-shown :
    (es : List Entry) (p : FilePath) (changed : Bool)
    → All IsEntry es
    → ends_in_separator p ≡ false
    → push_each (shown_components es) (p, changed) ≡ (p ++ below (names es), changed || any_gone es)
unfolding push_each below any_gone
push_each-shown [] p changed h still = rw (append-nil p) (ground arith)
push_each-shown (e ∷ es) p changed h still =
    ap (push_each (shown_components es)) (push_component-shown e p changed h.0 ∙ rw still refl)
    ∙ push_each-shown es (p ++ (47 ∷ e.name)) (changed || e.gone) h.1
        (ends_in_separator-entry p e h.0)
    ∙ rw (below-append p e.name es) (ground arith)

map-shown-IsName : (es : List Entry) → All IsEntry es → All IsName (map shown es)
map-shown-IsName [] h = tt
map-shown-IsName (e ∷ es) h = (shown-IsName e h.0, map-shown-IsName es h.1)

ends_with-shown : (e : Entry) → IsEntry e → ends_with_deleted_marker (shown e) ≡ e.gone
unfolding shown ends_with_deleted_marker
ends_with-shown e h = elim (Bool-cases e.gone) [
  | inl gone ↦ rw gone (ends_with-append e.name deleted_marker)
  | inr there ↦
      rw there (let unmarked = h.unmarked there in unfold ends_with_deleted_marker in unmarked)
]

any_marked-shown :
    (es : List Entry) → All IsEntry es → any_marked (shown_components es) ≡ any_gone es
unfolding any_marked marked any_gone
any_marked-shown [] h = refl
any_marked-shown (e ∷ es) h = rw (any_marked-shown es h.1, ends_with-shown e h.0) refl

push_component-root_dir : push_component root_dir ([], false) ≡ (47 ∷ [], false)
unfolding push_component push is_absolute as_os_str
push_component-root_dir = refl

push_component-first :
    (e : Entry)
    → IsEntry e
    → push_component (normal (shown e)) (47 ∷ [], false) ≡ (47 ∷ e.name, e.gone)
unfolding ends_in_separator
push_component-first e h = push_component-shown e (47 ∷ []) false h

-- The whole path: from the root directory.
push_path-shown :
    (es : List Entry)
    → All IsEntry es
    → push_each (root_dir ∷ shown_components es) ([], false) ≡ (absolute (names es), any_gone es)
unfolding push_each absolute any_gone
push_path-shown [] h = push_component-root_dir
push_path-shown (e ∷ es) h =
    ap (λ w. push_each (shown_components es) (push_component (normal (shown e)) w))
      push_component-root_dir
    ∙ ap (push_each (shown_components es)) (push_component-first e h.0)
    ∙ push_each-shown es (47 ∷ e.name) e.gone h.1 (ends_in_separator-entry [] e h.0)

components-shown :
    (es : List Entry)
    → All IsEntry es
    → components (absolute (map shown es)) ≡ root_dir ∷ shown_components es
components-shown es h = components-absolute (map shown es) (map-shown-IsName es h)

map-shown_none : (es : List Entry) → any_gone es ≡ false → map shown es ≡ names es
unfolding any_gone shown
map-shown_none [] h = refl
map-shown_none (e ∷ es) h =
    let rest = map-shown_none es (ground arith) in
    let there : e.gone ≡ false = ground arith in rw there (ap (λ t. e.name ∷ t) rest)

-- An absolute path in which the marker stands behind some of the names, those whose objects are
-- gone, and no other name ends in it: the event is deleted exactly if there is such a name, and
-- without the suffix its path is that of the names themselves.
pub without_deleted_suffix-shown :
    (e : FidEvent) (es : List Entry)
    → All IsEntry es
    → let found = set_path e (absolute (map shown es)) in
      (is_deleted found ≡ any_gone es) × (without_deleted_suffix found ≡ some (absolute (names es)))
unfolding is_deleted without_deleted_suffix set_path path_is_deleted carries_deleted_marker
    without_marker
without_deleted_suffix-shown e es h = (
  rw (components-shown es h) (unfold any_marked marked in any_marked-shown es h),
  ap some (
      rw (components-shown es h) (
        rw (push_path-shown es h) (
          unfold cleaned_or in
          elim (Bool-cases (any_gone es)) [
            | inl some_gone ↦ rw some_gone refl
            | inr none_gone ↦ rw none_gone (ap absolute (map-shown_none es none_gone))
          ]))),
)
