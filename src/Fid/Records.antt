-- ===== src/Fid/Records.antt =====
-- src/fid.rs: `parse_one_event`, the walk over the info records of one event.
pub mod Parsed
pub mod Header
use fanotify_fid.Base.{
  ℕ, ◌+◌, ◌-◌, ◌≤◌, ◌<◌, ◌≡◌, ℤ, to_i32, is_negative, eq_ℤ, not, Bool, true, false, ◌&&◌, ◌||◌,
  Option, none, some, or_else, leb, ltb, ◌==◌, if◌then◌else◌, arith, Round, again, leave, loop,
}
use fanotify_fid.Bytes.{Bytes, Endian, read_field, read_u32, read_u64}
use fanotify_fid.Consts.{info_header_size, fan_nofd}
use fanotify_fid.Consts.InfoType
use fanotify_fid.Fid.Event.{FidEvent, Fsid, RenameSide, unavailable, pidfd_is_absent, preserve}
use fanotify_fid.Fid.Payload.{split_fsid_handle, split_fsid_handle_name}

-- `EventMetadata`; the three `int`s and the mask as the numbers that they stand for.
pub record EventMetadata : Type 0 where
  pub event_len : ℕ
  pub vers : ℕ
  pub reserved : ℕ
  pub metadata_len : ℕ
  pub mask : ℕ
  pub fd : ℤ
  pub pid : ℤ

pub record InfoHeader : Type 0 where
  pub info_type : ℕ
  pub pad : ℕ
  pub len : ℕ

-- The locals of one round of the record walk.
pub record Located : Type 0 where
  pub info_type : ℕ
  pub header_at : ℕ
  pub record_end : ℕ
  pub payload_at : ℕ
  pub payload_len : ℕ

pub record Cursor : Type 0 where
  pub event : FidEvent
  pub header_at : ℕ

-- `event.preserve(buf, header_at, record_end, header.info_type)`
abbrev pub keep_record : Bytes → Located → FidEvent → FidEvent
keep_record buf r e = preserve e buf r.header_at r.record_end r.info_type

-- What the header says, before the records.
unfoldable pub begin_event : EventMetadata → FidEvent → FidEvent
begin_event meta e = record e {
  mask = meta.mask;
  pid = meta.pid;
  fd_error = (if is_negative meta.fd && not (eq_ℤ meta.fd fan_nofd) then some meta.fd else none);
}

module _ (en : Endian) (buf : Bytes) where
  -- `read_unaligned::<EventMetadata>(buf, offset)`
  unfoldable pub read_metadata : ℕ → EventMetadata
  read_metadata offset = record {
    event_len = read_field en 4 buf offset;
    vers = read_field en 1 buf (offset + 4);
    reserved = read_field en 1 buf (offset + 5);
    metadata_len = read_field en 2 buf (offset + 6);
    mask = read_field en 8 buf (offset + 8);
    fd = to_i32 (read_field en 4 buf (offset + 16));
    pid = to_i32 (read_field en 4 buf (offset + 20));
  }

  -- `read_unaligned::<InfoHeader>(buf, header_at)`
  unfoldable pub read_info_header : ℕ → InfoHeader
  read_info_header at = record {
    info_type = read_field en 1 buf at;
    pad = read_field en 1 buf (at + 1);
    len = read_field en 2 buf (at + 2);
  }

  unfoldable pub apply_dfid_name : Located → FidEvent → FidEvent
  apply_dfid_name r e = elim (split_fsid_handle_name en buf r.payload_at r.payload_len) [
    | none ↦ keep_record buf r e
    | some (fsid, handle, name) ↦ elim e.dfid_name_name [
      | none ↦ record e {
        fsid = or_else e.fsid (some fsid);
        dfid_name_handle = some handle;
        dfid_name_name = some name;
      }
      | some _ ↦ keep_record buf r e
    ]
  ]

  unfoldable pub apply_fid : Located → FidEvent → FidEvent
  apply_fid r e = elim (split_fsid_handle en buf r.payload_at r.payload_len) [
    | none ↦ keep_record buf r e
    | some (fsid, handle) ↦ record e {
      fsid = or_else e.fsid (some fsid);
      self_handle = some handle;
    }
  ]

  unfoldable pub apply_old_dfid_name : Located → FidEvent → FidEvent
  apply_old_dfid_name r e = elim (split_fsid_handle_name en buf r.payload_at r.payload_len) [
    | none ↦ keep_record buf r e
    | some (fsid, handle, name) ↦ record e {
      fsid = or_else e.fsid (some fsid);
      rename_source = some (record { handle = handle; name = name });
    }
  ]

  unfoldable pub apply_new_dfid_name : Located → FidEvent → FidEvent
  apply_new_dfid_name r e = elim (split_fsid_handle_name en buf r.payload_at r.payload_len) [
    | none ↦ keep_record buf r e
    | some (fsid, handle, name) ↦ record e {
      fsid = or_else e.fsid (some fsid);
      rename_target = some (record { handle = handle; name = name });
    }
  ]

  unfoldable pub apply_pidfd : Located → FidEvent → FidEvent
  apply_pidfd r e = elim (read_u32 en buf r.payload_at r.payload_len) [
    | none ↦ keep_record buf r e
    | some raw ↦
        if pidfd_is_absent e
        then record e { pidfd = unavailable (to_i32 raw) }
        else keep_record buf r e
  ]

  unfoldable pub apply_error : Located → FidEvent → FidEvent
  apply_error r e = elim (read_u32 en buf r.payload_at r.payload_len) [
    | none ↦ keep_record buf r e
    | some error ↦ elim (read_u32 en buf (r.payload_at + 4) (r.payload_len - 4)) [
      | none ↦ keep_record buf r e
      | some count ↦ record e { fs_error = some (to_i32 error, count) }
    ]
  ]

  unfoldable pub apply_range : Located → FidEvent → FidEvent
  apply_range r e = elim (read_u64 en buf r.payload_at r.payload_len) [
    | none ↦ keep_record buf r e
    | some offset ↦ elim (read_u64 en buf (r.payload_at + 8) (r.payload_len - 8)) [
      | none ↦ keep_record buf r e
      | some count ↦ record e { access_range = some (offset, count) }
    ]
  ]

  unfoldable pub apply_mnt : Located → FidEvent → FidEvent
  apply_mnt r e = elim (read_u64 en buf r.payload_at r.payload_len) [
    | none ↦ keep_record buf r e
    | some mnt_id ↦ record e { mnt_id = some mnt_id }
  ]

  -- `match header.info_type`
  unfoldable pub apply_record : Located → FidEvent → FidEvent
  apply_record r e =
      if r.info_type == InfoType.dfid_name
      then apply_dfid_name r e
      else if r.info_type == InfoType.fid || r.info_type == InfoType.dfid
      then apply_fid r e
      else if r.info_type == InfoType.old_dfid_name
      then apply_old_dfid_name r e
      else if r.info_type == InfoType.new_dfid_name
      then apply_new_dfid_name r e
      else if r.info_type == InfoType.pidfd
      then apply_pidfd r e
      else if r.info_type == InfoType.error
      then apply_error r e
      else if r.info_type == InfoType.range
      then apply_range r e
      else if r.info_type == InfoType.mnt
      then apply_mnt r e
      else keep_record buf r e

  -- One round of the walk over the records in front of `event_end`.
  unfoldable pub record_round : ℕ → Cursor → Round Cursor FidEvent
  record_round event_end c =
      let header = read_info_header c.header_at in
      let record_end = c.header_at + header.len in
      if leb (c.header_at + info_header_size) event_end
      then (if ltb header.len info_header_size || ltb (event_end - c.header_at) header.len
          then leave (preserve c.event buf c.header_at event_end header.info_type)
          else again (record {
            event =
                apply_record
                  (record {
                    info_type = header.info_type;
                    header_at = c.header_at;
                    record_end = record_end;
                    payload_at = c.header_at + info_header_size;
                    payload_len = header.len - info_header_size;
                  })
                  c.event;
            header_at = record_end;
          }))
      else leave c.event

  -- A round that goes on takes four bytes at least, and stays inside the event.
  pub record_round_shrinks :
      (event_end : ℕ) (c c' : Cursor)
      → record_round event_end c ≡ again c'
      → event_end - c'.header_at < event_end - c.header_at
  unfolding record_round
  record_round_shrinks event_end c c' h = ground arith

  unfoldable pub parse_records : ℕ → Cursor → FidEvent
  parse_records event_end =
      loop (λ c. event_end - c.header_at) (record_round event_end) (record_round_shrinks event_end)

  unfoldable pub parse_one_event : FidEvent → ℕ → ℕ → ℕ → EventMetadata → FidEvent
  parse_one_event event event_start event_len records_start meta =
      parse_records (event_start + event_len)
        (record { event = begin_event meta event; header_at = event_start + records_start })
