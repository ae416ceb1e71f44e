-- ===== src/Paths.antt =====
-- Unix paths as src/fid.rs and src/resolve.rs use them through `std::path`: `PathBuf::push` and
-- `Path::components`. A path is its bytes.
pub mod Names
use fanotify_fid.Base.{
  ℕ, ◌==◌, Bool, true, false, ◌||◌, Option, none, some, List, [], ◌∷◌, ◌++◌, length, if◌then◌else◌,
}
use fanotify_fid.Bytes.{Bytes}
use fanotify_fid.Fid.Event.{FilePath}
use fanotify_fid.Handle.Key.{same_bytes}

abbrev pub contains_byte : ℕ → Bytes → Bool
contains_byte b [] = false
contains_byte b (c ∷ cs) = c == b || contains_byte b cs

-- `PathBuf::push`: an absolute path replaces what was there, and a separator is put between.
unfoldable pub ends_in_separator : FilePath → Bool
ends_in_separator [] = true
ends_in_separator (b ∷ []) = b == 47
ends_in_separator (b ∷ c ∷ cs) = ends_in_separator (c ∷ cs)

unfoldable pub is_absolute : FilePath → Bool
is_absolute [] = false
is_absolute (b ∷ bs) = b == 47

unfoldable pub push : FilePath → Bytes → FilePath
push dir name =
    if is_absolute name
    then name
    else if ends_in_separator dir
    then dir ++ name
    else dir ++ (47 ∷ name)

pub data Component : Type 0 where
  root_dir : Component
  cur_dir : Component
  parent_dir : Component
  normal : Bytes → Component

-- What stands between the separators.
unfoldable pub cons_first : ℕ → List Bytes → List Bytes
cons_first b [] = (b ∷ []) ∷ []
cons_first b (s ∷ ss) = (b ∷ s) ∷ ss

unfoldable pub split : Bytes → List Bytes
split [] = [] ∷ []
split (b ∷ bs) = let rest = split bs in if b == 47 then [] ∷ rest else cons_first b rest

-- Nothing and `.` between two separators are no component.
unfoldable pub segment : Bytes → Option Component
segment s =
    if same_bytes s [] || same_bytes s (46 ∷ [])
    then none
    else if same_bytes s (46 ∷ 46 ∷ [])
    then some parent_dir
    else some (normal s)

unfoldable pub cons_some : Option Component → List Component → List Component
cons_some none cs = cs
cons_some (some c) cs = c ∷ cs

unfoldable pub segments : List Bytes → List Component
segments [] = []
segments (s ∷ ss) = cons_some (segment s) (segments ss)

-- A `.` counts at the front of a relative path.
unfoldable pub relative_components : List Bytes → List Component
relative_components [] = []
relative_components (s ∷ ss) =
    if same_bytes s (46 ∷ []) then cur_dir ∷ segments ss else segments (s ∷ ss)

unfoldable pub components : FilePath → List Component
components path =
    if is_absolute path then root_dir ∷ segments (split path) else relative_components (split path)

unfoldable pub as_os_str : Component → Bytes
as_os_str root_dir = 47 ∷ []
as_os_str cur_dir = 46 ∷ []
as_os_str parent_dir = 46 ∷ 46 ∷ []
as_os_str (normal name) = name
