-- ===== src/Paths/Names.antt =====
-- Paths that are written from names.
use mathlib.Core.List.{append-nil}
use fanotify_fid.Base.{
  ℕ, ◌≡◌, refl, ap, false, some, List, [], ◌∷◌, ◌++◌, map, All, arith, if◌then◌else◌,
}
use fanotify_fid.Bytes.{Bytes}
use fanotify_fid.Fid.Event.{FilePath}
use fanotify_fid.Paths.{
  root_dir, normal, contains_byte, cons_first, split, segment, cons_some, segments, components,
  is_absolute, ends_in_separator, push,
}

-- A name that is one component of a path.
pub record IsName (name : Bytes) : Type 0 where
  pub no_separator : contains_byte 47 name ≡ false
  pub one_component : segment name ≡ some (normal name)

-- Names below a directory, and from the root.
unfoldable pub below : List Bytes → FilePath
below [] = []
below (name ∷ names) = 47 ∷ (name ++ below names)

unfoldable pub absolute : List Bytes → FilePath
absolute [] = 47 ∷ []
absolute (name ∷ names) = 47 ∷ (name ++ below names)

split_one : (s : Bytes) → contains_byte 47 s ≡ false → split s ≡ s ∷ []
unfolding split
split_one [] h = refl
split_one (b ∷ bs) h = rw (split_one bs (ground arith)) (unfold cons_first in ground arith)

split-append : (s t : Bytes) → contains_byte 47 s ≡ false → split (s ++ 47 ∷ t) ≡ s ∷ split t
unfolding split
split-append [] t h = refl
split-append (b ∷ bs) t h =
    rw (split-append bs t (ground arith)) (unfold cons_first in ground arith)

split_first :
    (name : Bytes) (names : List Bytes)
    → All IsName (name ∷ names)
    → segments (split (name ++ below names)) ≡ map normal (name ∷ names)
unfolding below segments
split_first name [] h =
    rw (append-nil name)
      (rw (split_one name h.0.no_separator) (rw (h.0.one_component) (unfold cons_some in refl)))
split_first name (next ∷ names) h =
    rw (split-append name (next ++ below names) h.0.no_separator)
      (rw (h.0.one_component, split_first next names h.1) (unfold cons_some in refl))

pub components-absolute :
    (names : List Bytes)
    → All IsName names
    → components (absolute names) ≡ root_dir ∷ map normal names
unfolding components absolute is_absolute split
components-absolute [] h = unfold segments segment cons_some in refl
components-absolute (name ∷ names) h =
    ap (λ cs. root_dir ∷ cs) (unfold segments segment cons_some in split_first name names h)

ends_in_separator-append :
    (p : FilePath) (b : ℕ) (bs : Bytes)
    → contains_byte 47 (b ∷ bs) ≡ false
    → ends_in_separator (p ++ b ∷ bs) ≡ false
unfolding ends_in_separator
ends_in_separator-append [] b [] h = ground arith
ends_in_separator-append [] b (c ∷ cs) h = ends_in_separator-append [] c cs (ground arith)
ends_in_separator-append (a ∷ []) b bs h = ends_in_separator-append [] b bs h
ends_in_separator-append (a ∷ c ∷ p) b bs h = ends_in_separator-append (c ∷ p) b bs h

pub ends_in_separator-name :
    (p : FilePath) (name : Bytes) → IsName name → ends_in_separator (p ++ name) ≡ false
ends_in_separator-name p [] h = absurd (let e = h.one_component in unfold segment in cc)
ends_in_separator-name p (b ∷ bs) h = ends_in_separator-append p b bs h.no_separator

-- A name is pushed behind a separator.
pub push-name :
    (p : FilePath) (name : Bytes)
    → IsName name
    → push p name ≡ (if ends_in_separator p then p ++ name else p ++ (47 ∷ name))
unfolding push is_absolute
push-name p [] h = refl
push-name p (b ∷ bs) h = let e = h.no_separator in ground arith
