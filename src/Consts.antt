-- ===== src/Consts.antt =====
-- The constants of src/consts.rs, src/fid.rs and src/handle.rs that the crate computes with.
pub mod InfoType
pub mod EventMask
pub mod EventNames
pub mod Flags
pub mod InitFlags
pub mod MarkFlags
pub mod OpenFlags
pub mod EventSets
mod Examples
use fanotify_fid.Base.{ℕ, ℤ, pos, negsuc, ◌+◌, ◌-◌, ◌*◌, ◌^◌}

-- sizes of the kernel's structures
abbrev pub metadata_size : ℕ
metadata_size = 24

abbrev pub info_header_size : ℕ
info_header_size = 4

abbrev pub fsid_size : ℕ
fsid_size = 8

abbrev pub file_handle_header_size : ℕ
file_handle_header_size = 8

abbrev pub max_handle_sz : ℕ
max_handle_sz = 128

abbrev pub max_file_handle_size : ℕ
max_file_handle_size = file_handle_header_size + max_handle_sz

abbrev pub fanotify_metadata_version : ℕ
fanotify_metadata_version = 3

-- sentinels
abbrev pub fan_nofd : ℤ
fan_nofd = negsuc 0

abbrev pub fan_nopidfd : ℤ
fan_nopidfd = fan_nofd

abbrev pub fan_epidfd : ℤ
fan_epidfd = negsuc 1

-- responses
abbrev pub fan_allow : ℕ
fan_allow = 0x01

abbrev pub fan_deny : ℕ
fan_deny = 0x02

abbrev pub fan_audit : ℕ
fan_audit = 0x10

abbrev pub fan_info : ℕ
fan_info = 0x20

abbrev pub fan_errno_bits : ℕ
fan_errno_bits = 8

abbrev pub fan_errno_shift : ℕ
fan_errno_shift = 32 - fan_errno_bits

abbrev pub fan_errno_mask : ℕ
fan_errno_mask = 1 * 2 ^ fan_errno_bits - 1

abbrev pub fan_response_info_none : ℕ
fan_response_info_none = 0

abbrev pub fan_response_info_audit_rule : ℕ
fan_response_info_audit_rule = 1

-- calls
abbrev pub at_fdcwd : ℤ
at_fdcwd = negsuc 99

abbrev pub at_empty_path : ℕ
at_empty_path = 0x1000

abbrev pub at_handle_fid : ℕ
at_handle_fid = 0x200
