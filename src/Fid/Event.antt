-- ===== src/Fid/Event.antt =====
-- src/fid.rs: `FidEvent`, `RenameSide` and `Pidfd`, with the methods of the three. A borrowed byte
-- range and its owned copy are the same bytes, so `Cow`, `into_owned` and the lifetimes leave no
-- trace here; an owned descriptor is its number.
use fanotify_fid.Base.{
  ℕ, ℤ, pos, eq_ℤ, Bool, true, false, Option, none, some, List, [], ◌∷◌, ◌++◌, is_some,
}
use fanotify_fid.Consts.EventMask.{fan_q_overflow, has_bit}
use fanotify_fid.Bytes.{Bytes, get_range}

-- src/handle.rs: `Fsid`
abbrev pub Fsid : Type 0
Fsid = ℤ × ℤ

-- A path is its bytes.
abbrev pub FilePath : Type 0
FilePath = Bytes

pub record RenameSide : Type 0 where
  pub handle : Bytes
  pub name : Bytes

pub data Pidfd : Type 0 where
  missing : Pidfd
  fd : ℤ → Pidfd
  unavailable : ℤ → Pidfd

-- `Pidfd::eq`: what the record said about the process, not which value holds it.
unfoldable pub pidfd_eq : Pidfd → Pidfd → Bool
pidfd_eq missing missing = true
pidfd_eq (fd a) (fd b) = eq_ℤ a b
pidfd_eq (unavailable a) (unavailable b) = eq_ℤ a b
pidfd_eq (fd a) (unavailable b) = eq_ℤ a b
pidfd_eq (unavailable a) (fd b) = eq_ℤ b a
pidfd_eq _ _ = false

pub record FidEvent : Type 0 where
  pub mask : ℕ
  pub pid : ℤ
  pub fsid : Option Fsid
  pub dfid_name_handle : Option Bytes
  pub dfid_name_name : Option Bytes
  pub self_handle : Option Bytes
  pub pidfd : Pidfd
  pub fd_error : Option ℤ
  pub fs_error : Option (ℤ × ℕ)
  pub access_range : Option (ℕ × ℕ)
  pub mnt_id : Option ℕ
  pub rename_source : Option RenameSide
  pub rename_target : Option RenameSide
  pub unknown_info_records : List (ℕ × Bytes)
  pub path : Option FilePath

unfoldable pub new : FidEvent
new = record {
  mask = 0;
  pid = pos 0;
  fsid = none;
  dfid_name_handle = none;
  dfid_name_name = none;
  self_handle = none;
  pidfd = missing;
  fd_error = none;
  fs_error = none;
  access_range = none;
  mnt_id = none;
  rename_source = none;
  rename_target = none;
  unknown_info_records = [];
  path = none;
}

-- The event in place, field by field.
unfoldable pub reset : FidEvent → FidEvent
reset e = record e {
  mask = 0;
  pid = pos 0;
  fsid = none;
  dfid_name_handle = none;
  dfid_name_name = none;
  self_handle = none;
  pidfd = missing;
  fd_error = none;
  fs_error = none;
  access_range = none;
  mnt_id = none;
  rename_source = none;
  rename_target = none;
  unknown_info_records = [];
  path = none;
}

unfoldable pub set_path : FidEvent → FilePath → FidEvent
set_path e p = record e { path = some p }

unfoldable pub has_path : FidEvent → Bool
has_path e = is_some e.path

-- `dfid_name_raw`: empty when the event carries no name record.
abbrev or_empty : Option Bytes → Bytes
or_empty none = []
or_empty (some bs) = bs

unfoldable pub dfid_name_raw : FidEvent → Bytes
dfid_name_raw e = or_empty e.dfid_name_name

-- The number and the event left behind.
unfoldable pub take_pidfd : FidEvent → Pidfd × FidEvent
take_pidfd e = (e.pidfd, record e { pidfd = missing })

abbrev is_missing : Pidfd → Bool
is_missing missing = true
is_missing _ = false

unfoldable pub pidfd_is_absent : FidEvent → Bool
pidfd_is_absent e = is_missing e.pidfd

unfoldable pub is_overflow : FidEvent → Bool
is_overflow e = has_bit e.mask fan_q_overflow

-- `preserve`: a record verbatim, header included.
unfoldable pub preserve : FidEvent → Bytes → ℕ → ℕ → ℕ → FidEvent
unfolding get_range
preserve e buf record_at counted_end info_type = record e {
  unknown_info_records =
      e.unknown_info_records ++ (info_type, or_empty (get_range buf record_at counted_end)) ∷ [];
}
