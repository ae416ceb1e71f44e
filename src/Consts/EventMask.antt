-- ===== src/Consts/EventMask.antt =====
-- src/consts.rs: the bits of an event's mask.
use Prim.Native.Nat.{bit_and}
use fanotify_fid.Base.{ℕ, ◌==◌, Bool, not}

abbrev pub fan_access : ℕ
fan_access = 0x1

abbrev pub fan_modify : ℕ
fan_modify = 0x2

abbrev pub fan_attrib : ℕ
fan_attrib = 0x4

abbrev pub fan_close_write : ℕ
fan_close_write = 0x8

abbrev pub fan_close_nowrite : ℕ
fan_close_nowrite = 0x10

abbrev pub fan_open : ℕ
fan_open = 0x20

abbrev pub fan_open_exec : ℕ
fan_open_exec = 0x1000

abbrev pub fan_moved_from : ℕ
fan_moved_from = 0x40

abbrev pub fan_moved_to : ℕ
fan_moved_to = 0x80

abbrev pub fan_create : ℕ
fan_create = 0x100

abbrev pub fan_delete : ℕ
fan_delete = 0x200

abbrev pub fan_delete_self : ℕ
fan_delete_self = 0x400

abbrev pub fan_move_self : ℕ
fan_move_self = 0x800

abbrev pub fan_q_overflow : ℕ
fan_q_overflow = 0x4000

abbrev pub fan_fs_error : ℕ
fan_fs_error = 0x8000

abbrev pub fan_open_perm : ℕ
fan_open_perm = 0x10000

abbrev pub fan_access_perm : ℕ
fan_access_perm = 0x20000

abbrev pub fan_open_exec_perm : ℕ
fan_open_exec_perm = 0x40000

abbrev pub fan_pre_access : ℕ
fan_pre_access = 0x100000

abbrev pub fan_mnt_attach : ℕ
fan_mnt_attach = 0x1000000

abbrev pub fan_mnt_detach : ℕ
fan_mnt_detach = 0x2000000

abbrev pub fan_event_on_child : ℕ
fan_event_on_child = 0x8000000

abbrev pub fan_rename : ℕ
fan_rename = 0x10000000

abbrev pub fan_ondir : ℕ
fan_ondir = 0x40000000

-- `mask & bit != 0`
unfoldable pub has_bit : ℕ → ℕ → Bool
has_bit mask bit = not (bit_and mask bit == 0)
