-- ===== src/Fid/Build.antt =====
-- src/fid.rs: the setters of an event's fields, for events that are built by hand, and the getters
-- that compute something.
use fanotify_fid.Base.{ℕ, ℤ, none, some, [], ◌∷◌, ◌++◌}
use fanotify_fid.Bytes.{Bytes}
use fanotify_fid.Fid.Event.{Fsid, RenameSide, Pidfd, FidEvent}

unfoldable pub set_mask : FidEvent → ℕ → FidEvent
set_mask e mask = record e { mask = mask }

unfoldable pub set_pid : FidEvent → ℤ → FidEvent
set_pid e pid = record e { pid = pid }

unfoldable pub set_fsid : FidEvent → Fsid → FidEvent
set_fsid e fsid = record e { fsid = some fsid }

unfoldable pub set_dfid_name : FidEvent → Bytes → Bytes → FidEvent
set_dfid_name e handle name = record e {
  dfid_name_handle = some handle;
  dfid_name_name = some name;
}

unfoldable pub set_self_handle : FidEvent → Bytes → FidEvent
set_self_handle e handle = record e { self_handle = some handle }

unfoldable pub set_mnt_id : FidEvent → ℕ → FidEvent
set_mnt_id e mnt_id = record e { mnt_id = some mnt_id }

unfoldable pub set_access_range : FidEvent → ℕ → ℕ → FidEvent
set_access_range e offset count = record e { access_range = some (offset, count) }

unfoldable pub set_fs_error : FidEvent → ℤ → ℕ → FidEvent
set_fs_error e error error_count = record e { fs_error = some (error, error_count) }

unfoldable pub set_fd_error : FidEvent → ℤ → FidEvent
set_fd_error e error = record e { fd_error = some error }

unfoldable pub set_rename_source : FidEvent → RenameSide → FidEvent
set_rename_source e side = record e { rename_source = some side }

unfoldable pub set_rename_target : FidEvent → RenameSide → FidEvent
set_rename_target e side = record e { rename_target = some side }

unfoldable pub set_pidfd : FidEvent → Pidfd → FidEvent
set_pidfd e pidfd = record e { pidfd = pidfd }

unfoldable pub push_unknown_info_record : FidEvent → ℕ → Bytes → FidEvent
push_unknown_info_record e info_type bytes = record e {
  unknown_info_records = e.unknown_info_records ++ (info_type, bytes) ∷ [];
}

unfoldable pub clear_path : FidEvent → FidEvent
clear_path e = record e { path = none }
