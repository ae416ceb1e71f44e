-- ===== src/Fid/Deleted/Untouched.antt =====
-- A path without a marker.
use fanotify_fid.Base.{◌≡◌, refl, ◌∙◌, ap, false, ◌||◌, Option, none, some, List, [], ◌∷◌, arith}
use fanotify_fid.Fid.Event.{FilePath, FidEvent}
use fanotify_fid.Paths.{Component, root_dir, cur_dir, parent_dir, normal, components}
use fanotify_fid.Fid.Deleted.{
  strip_suffix, ends_with_deleted_marker, marked, any_marked, carries_deleted_marker,
  path_is_deleted, is_deleted, Cleaning, push_stripped, push_component, push_each, cleaned_or,
  without_marker, without_deleted_suffix,
}

push_component-changed : (c : Component) (w : Cleaning) → (push_component c w).1 ≡ w.1 || marked c
unfolding push_component marked ends_with_deleted_marker strip_suffix
push_component-changed root_dir w = ground arith
push_component-changed cur_dir w = ground arith
push_component-changed parent_dir w = ground arith
push_component-changed (normal name) w = unfold push_stripped in ground arith

-- A marker is removed exactly if some component has one.
pub push_each-changed :
    (cs : List Component) (w : Cleaning) → (push_each cs w).1 ≡ w.1 || any_marked cs
unfolding push_each any_marked
push_each-changed [] w = ground arith
push_each-changed (c ∷ cs) w =
    push_each-changed cs (push_component c w) ∙ rw (push_component-changed c w) (ground arith)

without_marker-untouched :
    (path : Option FilePath) → path_is_deleted path ≡ false → without_marker path ≡ path
unfolding path_is_deleted without_marker carries_deleted_marker
without_marker-untouched none h = refl
without_marker-untouched (some path) h =
    ap some (unfold cleaned_or in rw (push_each-changed (components path) ([], false)) (rw h refl))

-- An event whose path carries no marker, or that has no path, answers its path as it is.
pub without_deleted_suffix-untouched :
    (e : FidEvent) → is_deleted e ≡ false → without_deleted_suffix e ≡ e.path
unfolding is_deleted without_deleted_suffix
without_deleted_suffix-untouched e h = without_marker-untouched e.path h
