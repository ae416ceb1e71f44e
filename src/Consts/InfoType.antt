-- ===== src/Consts/InfoType.antt =====
-- src/consts.rs: the record types, FAN_EVENT_INFO_TYPE_*.
use fanotify_fid.Base.{ℕ}

abbrev pub fid : ℕ
fid = 1

abbrev pub dfid_name : ℕ
dfid_name = 2

abbrev pub dfid : ℕ
dfid = 3

abbrev pub pidfd : ℕ
pidfd = 4

abbrev pub error : ℕ
error = 5

abbrev pub range : ℕ
range = 6

abbrev pub mnt : ℕ
mnt = 7

abbrev pub old_dfid_name : ℕ
old_dfid_name = 10

abbrev pub new_dfid_name : ℕ
new_dfid_name = 12
