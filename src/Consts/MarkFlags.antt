-- ===== src/Consts/MarkFlags.antt =====
-- src/consts.rs: the flags of fanotify_mark(2).
use fanotify_fid.Base.{ℕ, [], ◌∷◌}
use fanotify_fid.Consts.Flags.{any_of}

abbrev pub fan_mark_add : ℕ
fan_mark_add = 1

abbrev pub fan_mark_remove : ℕ
fan_mark_remove = 2

abbrev pub fan_mark_dont_follow : ℕ
fan_mark_dont_follow = 4

abbrev pub fan_mark_onlydir : ℕ
fan_mark_onlydir = 8

abbrev pub fan_mark_mount : ℕ
fan_mark_mount = 0x10

abbrev pub fan_mark_ignored_mask : ℕ
fan_mark_ignored_mask = 0x20

abbrev pub fan_mark_ignored_surv_modify : ℕ
fan_mark_ignored_surv_modify = 0x40

abbrev pub fan_mark_flush : ℕ
fan_mark_flush = 0x80

abbrev pub fan_mark_filesystem : ℕ
fan_mark_filesystem = 0x100

abbrev pub fan_mark_evictable : ℕ
fan_mark_evictable = 0x200

abbrev pub fan_mark_ignore : ℕ
fan_mark_ignore = 0x400

abbrev pub fan_mark_inode : ℕ
fan_mark_inode = 0

abbrev pub fan_mark_mntns : ℕ
fan_mark_mntns = 0x110

abbrev pub fan_mark_ignore_surv : ℕ
fan_mark_ignore_surv = any_of (fan_mark_ignore ∷ fan_mark_ignored_surv_modify ∷ [])

abbrev pub fan_all_mark_flags : ℕ
fan_all_mark_flags = any_of (
    fan_mark_add ∷ fan_mark_remove ∷ fan_mark_dont_follow ∷ fan_mark_onlydir ∷ fan_mark_mount
    ∷ fan_mark_ignored_mask ∷ fan_mark_ignored_surv_modify ∷ fan_mark_flush ∷ fan_mark_filesystem
    ∷ fan_mark_evictable ∷ fan_mark_ignore ∷ fan_mark_mntns ∷ [])
