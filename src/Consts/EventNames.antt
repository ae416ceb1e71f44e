-- ===== src/Consts/EventNames.antt =====
-- src/consts.rs: the names of the bits that are set in a mask, and so of an event's bits.
use Prim.Native.String.{String}
use text.Mathlib.Text.{◌==◌}
use text.Mathlib.TextPositions.{eq_refl}
use fanotify_fid.Base.{
  ℕ, ◌≡◌, refl, ◌∙◌, Bool, true, false, not, ◌&&◌, ◌||◌, List, [], ◌∷◌, All, arith, if◌then◌else◌,
  sym,
}
use fanotify_fid.Fid.Event.{FidEvent, is_overflow}
use fanotify_fid.Fd.Event
use fanotify_fid.Fd.Event.{FdEvent}
use fanotify_fid.Consts.EventMask.{
  has_bit, fan_access, fan_modify, fan_attrib, fan_close_write, fan_close_nowrite, fan_open,
  fan_open_exec, fan_moved_from, fan_moved_to, fan_create, fan_delete, fan_delete_self,
  fan_move_self, fan_q_overflow, fan_fs_error, fan_open_perm, fan_access_perm, fan_open_exec_perm,
  fan_pre_access, fan_mnt_attach, fan_mnt_detach, fan_event_on_child, fan_rename, fan_ondir,
}

abbrev pub event_names_table : List (ℕ × String)
event_names_table =
    (fan_access, "ACCESS")
    ∷ (fan_modify, "MODIFY")
    ∷ (fan_attrib, "ATTRIB")
    ∷ (fan_close_write, "CLOSE_WRITE")
    ∷ (fan_close_nowrite, "CLOSE_NOWRITE")
    ∷ (fan_open, "OPEN")
    ∷ (fan_open_exec, "OPEN_EXEC")
    ∷ (fan_moved_from, "MOVED_FROM")
    ∷ (fan_moved_to, "MOVED_TO")
    ∷ (fan_create, "CREATE")
    ∷ (fan_delete, "DELETE")
    ∷ (fan_delete_self, "DELETE_SELF")
    ∷ (fan_move_self, "MOVE_SELF")
    ∷ (fan_q_overflow, "Q_OVERFLOW")
    ∷ (fan_fs_error, "FS_ERROR")
    ∷ (fan_open_perm, "OPEN_PERM")
    ∷ (fan_access_perm, "ACCESS_PERM")
    ∷ (fan_open_exec_perm, "OPEN_EXEC_PERM")
    ∷ (fan_pre_access, "PRE_ACCESS")
    ∷ (fan_mnt_attach, "MNT_ATTACH")
    ∷ (fan_mnt_detach, "MNT_DETACH")
    ∷ (fan_event_on_child, "EVENT_ON_CHILD")
    ∷ (fan_rename, "RENAME")
    ∷ (fan_ondir, "ONDIR")
    ∷ []

-- The names of the bits of a table that a mask has, in the table's order.
unfoldable pub names_of : ℕ → List (ℕ × String) → List String
names_of mask [] = []
names_of mask ((bit, name) ∷ table) =
    let rest = names_of mask table in if has_bit mask bit then name ∷ rest else rest

unfoldable pub mask_to_event_names : ℕ → List String
mask_to_event_names mask = names_of mask event_names_table

-- `FidEvent::event_names`
unfoldable pub event_names : FidEvent → List String
event_names e = mask_to_event_names e.mask

unfoldable pub fd_event_names : FdEvent → List String
fd_event_names e = mask_to_event_names e.mask

unfoldable pub listed : String → List String → Bool
listed name [] = false
listed name (n ∷ ns) = (name == n) || listed name ns

abbrev in_table : String → List (ℕ × String) → Bool
in_table name [] = false
in_table name ((bit, n) ∷ table) = (name == n) || (n == name) || in_table name table

-- No name of the table, compared either way, stands in it twice.
abbrev distinct : List (ℕ × String) → Bool
distinct [] = true
distinct ((bit, name) ∷ table) = not (in_table name table) && distinct table

listed-names_of :
    (mask : ℕ) (name : String) (table : List (ℕ × String))
    → in_table name table ≡ false
    → listed name (names_of mask table) ≡ false
unfolding listed names_of
listed-names_of mask name [] h = refl
listed-names_of mask name ((bit, n) ∷ table) h =
    let rest = listed-names_of mask name table (ground arith) in ground arith

abbrev pub Listed : ℕ → List String → ℕ × String → Type 0
Listed mask names (bit, name) = listed name names ≡ has_bit mask bit

-- A name in front that the table does not have changes nothing for the table's names.
Listed-cons :
    (mask : ℕ) (n : String) (names : List String) (table : List (ℕ × String))
    → in_table n table ≡ false
    → All (Listed mask names) table
    → All (Listed mask (n ∷ names)) table
unfolding listed
Listed-cons mask n names [] h all = tt
Listed-cons mask n names ((bit, name) ∷ table) h all =
    (let head = all.0 in ground arith, Listed-cons mask n names table (ground arith) all.1)

-- The first row of a table, by whether its bit is set.
first_row-Listed :
    (mask bit : ℕ) (name : String) (table : List (ℕ × String)) (rest : List String) (set : Bool)
    → has_bit mask bit ≡ set
    → in_table name table ≡ false
    → listed name rest ≡ false
    → All (Listed mask rest) table
    → All (Listed mask (if set then name ∷ rest else rest)) ((bit, name) ∷ table)
first_row-Listed mask bit name table rest true on fresh unlisted all =
    (unfold listed in rw (eq_refl name) (sym on), Listed-cons mask name rest table fresh all)
first_row-Listed mask bit name table rest false off fresh unlisted all = (unlisted ∙ sym off, all)

names_of-Listed :
    (mask : ℕ) (table : List (ℕ × String))
    → distinct table ≡ true
    → All (Listed mask (names_of mask table)) table
unfolding names_of
names_of-Listed mask [] h = tt
names_of-Listed mask ((bit, name) ∷ table) h =
    let fresh : in_table name table ≡ false = ground arith in
    first_row-Listed mask bit name table (names_of mask table) (has_bit mask bit) refl fresh
      (listed-names_of mask name table fresh) (names_of-Listed mask table (ground arith))

-- For any mask, a name of the table is listed exactly if the mask has its bit.
pub mask_to_event_names-Listed :
    (mask : ℕ) → All (Listed mask (mask_to_event_names mask)) event_names_table
unfolding mask_to_event_names
mask_to_event_names-Listed mask = names_of-Listed mask event_names_table refl

-- An event of either format says that the queue overflowed exactly if its names say so.
pub event_names-is_overflow :
    (e : FidEvent) (d : FdEvent)
    → (listed "Q_OVERFLOW" (event_names e) ≡ is_overflow e)
      × (listed "Q_OVERFLOW" (fd_event_names d) ≡ Event.is_overflow d)
unfolding event_names fd_event_names is_overflow Event.is_overflow
event_names-is_overflow e d = (
  (mask_to_event_names-Listed e.mask).1.1.1.1.1.1.1.1.1.1.1.1.1.0,
  (mask_to_event_names-Listed d.mask).1.1.1.1.1.1.1.1.1.1.1.1.1.0,
)
