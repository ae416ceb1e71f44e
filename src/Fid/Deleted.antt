-- ===== src/Fid/Deleted.antt =====
-- src/fid.rs: the marker of objects that have no name any more, which /proc appends to a path.
pub mod Untouched
pub mod Marked
use fanotify_fid.Base.{
  ℕ, ◌-◌, Bool, true, false, ◌&&◌, ◌||◌, Option, none, some, List, [], ◌∷◌, ◌++◌, if◌then◌else◌,
  length, take, drop, leb,
}
use fanotify_fid.Bytes.{Bytes}
use fanotify_fid.Fid.Event.{FilePath, FidEvent}
use fanotify_fid.Handle.Key.{same_bytes}
use fanotify_fid.Paths.{
  Component, root_dir, cur_dir, parent_dir, normal, components, as_os_str, push,
}

-- " (deleted)"
abbrev pub deleted_marker : Bytes
deleted_marker = 32 ∷ 40 ∷ 100 ∷ 101 ∷ 108 ∷ 101 ∷ 116 ∷ 101 ∷ 100 ∷ 41 ∷ []

-- `slice::ends_with`
unfoldable pub ends_with : Bytes → Bytes → Bool
ends_with s suffix =
    leb (length suffix) (length s) && same_bytes (drop (length s - length suffix) s) suffix

-- `slice::strip_suffix`
unfoldable pub strip_suffix : Bytes → Bytes → Option Bytes
strip_suffix s suffix =
    if ends_with s suffix then some (take (length s - length suffix) s) else none

unfoldable pub ends_with_deleted_marker : Bytes → Bool
ends_with_deleted_marker name = ends_with name deleted_marker

unfoldable pub marked : Component → Bool
marked (normal name) = ends_with_deleted_marker name
marked _ = false

unfoldable pub any_marked : List Component → Bool
any_marked [] = false
any_marked (c ∷ cs) = marked c || any_marked cs

unfoldable pub carries_deleted_marker : FilePath → Bool
carries_deleted_marker path = any_marked (components path)

unfoldable pub path_is_deleted : Option FilePath → Bool
path_is_deleted none = false
path_is_deleted (some path) = carries_deleted_marker path

unfoldable pub is_deleted : FidEvent → Bool
is_deleted e = path_is_deleted e.path

-- The path that is built, and whether a marker was removed.
abbrev pub Cleaning : Type 0
Cleaning = FilePath × Bool

unfoldable pub push_stripped : Bytes → Option Bytes → Cleaning → Cleaning
push_stripped name (some stripped) (cleaned, changed) = (push cleaned stripped, true)
push_stripped name none (cleaned, changed) = (push cleaned name, changed)

unfoldable pub push_component : Component → Cleaning → Cleaning
push_component (normal name) c = push_stripped name (strip_suffix name deleted_marker) c
push_component other (cleaned, changed) = (push cleaned (as_os_str other), changed)

unfoldable pub push_each : List Component → Cleaning → Cleaning
push_each [] c = c
push_each (component ∷ rest) c = push_each rest (push_component component c)

unfoldable pub cleaned_or : FilePath → Cleaning → FilePath
cleaned_or path (cleaned, changed) = if changed then cleaned else path

unfoldable pub without_marker : Option FilePath → Option FilePath
without_marker none = none
without_marker (some path) = some (cleaned_or path (push_each (components path) ([], false)))

unfoldable pub without_deleted_suffix : FidEvent → Option FilePath
without_deleted_suffix e = without_marker e.path
