-- ===== src/Consts/InitFlags.antt =====
-- src/consts.rs: the flags of fanotify_init(2).
use fanotify_fid.Base.{ℕ, [], ◌∷◌}
use fanotify_fid.Consts.Flags.{any_of}

abbrev pub fan_cloexec : ℕ
fan_cloexec = 1

abbrev pub fan_nonblock : ℕ
fan_nonblock = 2

abbrev pub fan_class_notif : ℕ
fan_class_notif = 0

abbrev pub fan_class_content : ℕ
fan_class_content = 4

abbrev pub fan_class_pre_content : ℕ
fan_class_pre_content = 8

abbrev pub fan_all_class_bits : ℕ
fan_all_class_bits = any_of (fan_class_notif ∷ fan_class_content ∷ fan_class_pre_content ∷ [])

abbrev pub fan_unlimited_queue : ℕ
fan_unlimited_queue = 0x10

abbrev pub fan_unlimited_marks : ℕ
fan_unlimited_marks = 0x20

abbrev pub fan_enable_audit : ℕ
fan_enable_audit = 0x40

abbrev pub fan_report_pidfd : ℕ
fan_report_pidfd = 0x80

abbrev pub fan_report_tid : ℕ
fan_report_tid = 0x100

abbrev pub fan_report_fid : ℕ
fan_report_fid = 0x200

abbrev pub fan_report_dir_fid : ℕ
fan_report_dir_fid = 0x400

abbrev pub fan_report_name : ℕ
fan_report_name = 0x800

abbrev pub fan_report_target_fid : ℕ
fan_report_target_fid = 0x1000

abbrev pub fan_report_fd_error : ℕ
fan_report_fd_error = 0x2000

abbrev pub fan_report_mnt : ℕ
fan_report_mnt = 0x4000

abbrev pub fan_report_dfid_name : ℕ
fan_report_dfid_name = any_of (fan_report_dir_fid ∷ fan_report_name ∷ [])

abbrev pub fan_report_dfid_name_target : ℕ
fan_report_dfid_name_target =
    any_of (fan_report_dfid_name ∷ fan_report_fid ∷ fan_report_target_fid ∷ [])

abbrev pub fanotify_fid_bits : ℕ
fanotify_fid_bits =
    any_of (fan_report_fid ∷ fan_report_dir_fid ∷ fan_report_name ∷ fan_report_target_fid ∷ [])

abbrev pub fanotify_admin_init_flags : ℕ
fanotify_admin_init_flags = any_of (
    fan_class_content ∷ fan_class_pre_content ∷ fan_report_tid ∷ fan_report_pidfd
    ∷ fan_report_fd_error ∷ fan_unlimited_queue ∷ fan_unlimited_marks ∷ [])

abbrev pub fan_all_init_flags : ℕ
fan_all_init_flags = any_of (
    fan_cloexec ∷ fan_nonblock ∷ fan_all_class_bits ∷ fan_unlimited_queue ∷ fan_unlimited_marks
    ∷ fan_enable_audit ∷ fan_report_pidfd ∷ fan_report_tid ∷ fan_report_fid ∷ fan_report_dir_fid
    ∷ fan_report_name ∷ fan_report_target_fid ∷ fan_report_fd_error ∷ fan_report_mnt ∷ [])
