-- ===== src/Errors/Describe.antt =====
-- src/error.rs: what each errno means for each system call. The texts are lists of code points.
use fanotify_fid.Base.{ℕ, ◌++◌, ◌==◌, if◌then◌else◌}
use fanotify_fid.Errors.Errno
use fanotify_fid.Texts.{Text, codes, decimal}

unfoldable pub describe_init : ℕ → Text
describe_init code =
    if code == Errno.einval
    then (codes "The kernel rejected this flag combination.  Its rules: FAN_REPORT_PIDFD excludes "
        ++ codes "FAN_REPORT_TID; FAN_REPORT_MNT excludes every FID flag, FAN_REPORT_FD_ERROR, and "
        ++ codes
            "any class other than FAN_CLASS_NOTIF; any FID flag excludes FAN_CLASS_CONTENT and "
        ++ codes "FAN_CLASS_PRE_CONTENT; FAN_REPORT_NAME requires FAN_REPORT_DIR_FID; "
        ++ codes "FAN_REPORT_TARGET_FID requires both FAN_REPORT_NAME and FAN_REPORT_FID")
    else if code == Errno.eperm
    then (codes "Need CAP_SYS_ADMIN for the flags requested.  Without it, a group must be "
        ++ codes "FAN_CLASS_NOTIF and must set a FID flag or FAN_REPORT_MNT — a bare "
        ++ codes "FAN_CLASS_NOTIF group with no report flag is refused too, so pass "
        ++ codes "FAN_REPORT_FID (or FAN_REPORT_DIR_FID) if that was the intent")
    else if code == Errno.emfile
    then (codes "Too many fanotify groups (per-user limit is 128)")
    else if code == Errno.enomem
    then (codes "Out of memory")
    else if code == Errno.enosys
    then (codes "This kernel has no fanotify (CONFIG_FANOTIFY is off)")
    else codes "Unknown errno "
      ++ decimal code
      ++ codes ".  See fanotify_init(2) for the full list."

unfoldable pub describe_mark : ℕ → Text
describe_mark code =
    if code == Errno.einval
    then (codes "The mark mask or anchor flags do not fit this group.  The kernel checks here (not "
        ++ codes "at fanotify_init): a FAN_REPORT_MNT group takes only FAN_MARK_MNTNS with a mask "
        ++ codes
            "drawn from FAN_MNT_ATTACH/FAN_MNT_DETACH, every other group rejects both of those, "
        ++ codes "an inode mark needs a path, and FAN_RENAME needs a group with FAN_REPORT_NAME")
    else if code == Errno.eperm
    then (codes "Need CAP_SYS_ADMIN.  An unprivileged group may place FAN_MARK_INODE marks only — "
        ++ codes "and that limit is about the anchor, not the file: marking a root-owned file "
        ++ codes "succeeds")
    else if code == Errno.enoent
    then (codes "The path does not exist")
    else if code == Errno.ebadf
    then (codes "The fanotify descriptor, or the dirfd, is not open")
    else if code == Errno.enotdir
    then (codes "FAN_MARK_ONLYDIR was set but the path is not a directory")
    else if code == Errno.eopnotsupp
    then (codes "The filesystem cannot decode the file handles its events would carry, so only "
        ++ codes "FAN_MARK_INODE is allowed on it.  Filesystems that hand out synthetic "
        ++ codes "FILEID_INO64_GEN handles (procfs, sysfs, debugfs, ...) always answer this way")
    else if code == Errno.enospc
    then (codes "Mark limit reached (8192 per group; FAN_UNLIMITED_MARKS lifts it)")
    else if code == Errno.enodev
    then (codes "The filesystem does not support fsid")
    else if code == Errno.exdev
    then (codes "The path crosses into a filesystem with a different fsid")
    else if code == Errno.enomem
    then (codes "Out of memory")
    else if code == Errno.enosys
    then (codes "This kernel does not implement fanotify_mark")
    else codes "Unknown errno "
      ++ decimal code
      ++ codes ".  See fanotify_mark(2) for the full list."

unfoldable pub describe_read : ℕ → Text
describe_read code =
    if code == Errno.eagain
    then (codes "No events are queued (non-blocking group)")
    else if code == Errno.eintr
    then (codes "Interrupted by a signal before any event arrived.  This crate retries a read that "
        ++ codes "is interrupted, so a caller does not see it; `wait_readable` reports it instead, "
        ++ codes "where retrying would be a decision about the caller's loop rather than about a "
        ++ codes "syscall")
    else if code == Errno.einval
    then (codes "The buffer is too small for the next event.  fanotify never delivers a partial "
        ++ codes "event, so the buffer must hold the largest one — a long entry name is what makes "
        ++ codes "an event big")
    else if code == Errno.ebadf
    then (codes "The fanotify descriptor is not open for reading")
    else if code == Errno.enomem
    then (codes "Out of memory")
    else codes "Unknown errno "
      ++ decimal code
      ++ codes ".  See fanotify_read(2) for the full list."

unfoldable pub describe_write : ℕ → Text
describe_write code =
    if code == Errno.einval
    then (codes "The kernel refused the response: the group lacks FAN_ENABLE_AUDIT, the errno in a "
        ++ codes "deny is not one it accepts, or the record layout does not match the flags")
    else if code == Errno.enoent
    then (codes "There is no pending permission event to answer, or the descriptor named is not a "
        ++ codes "descriptor the event carried")
    else if code == Errno.ebadf
    then (codes "The fanotify descriptor is not open for writing")
    else codes "Unknown errno "
      ++ decimal code
      ++ codes ".  See fanotify_write(2) for the full list."
