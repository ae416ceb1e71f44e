-- ===== src/Fid/Open.antt =====
-- All that a run of the parser computes with, for the tests.
use fanotify_fid.Bytes.{
  get_range, le_value, le_bytes, from_ne_bytes, to_ne_bytes, read_field, read_u32, read_u64,
}
use fanotify_fid.Base.{loop, clear_slot}
use fanotify_fid.Fid.Event.{new, reset, pidfd_is_absent, preserve}
use fanotify_fid.Fid.Payload.{
  until_nul, read_fsid, read_file_handle, split_fsid_handle, split_fsid_handle_name,
}
use fanotify_fid.Fid.Records.{
  begin_event, read_metadata, read_info_header, apply_dfid_name, apply_fid, apply_old_dfid_name,
  apply_new_dfid_name, apply_pidfd, apply_error, apply_range, apply_mnt, apply_record, record_round,
  parse_records, parse_one_event,
}
use fanotify_fid.Fid.Walk.{
  walk_round, walk, finish_walk, parse_fid_events_into, reject_version, parse_fid_events,
}

unfoldable pub opened : Unit {0}
unfolding get_range le_value le_bytes from_ne_bytes to_ne_bytes read_field read_u32 read_u64 loop
    new reset pidfd_is_absent preserve until_nul read_fsid read_file_handle split_fsid_handle
    split_fsid_handle_name begin_event read_metadata read_info_header apply_dfid_name apply_fid
    apply_old_dfid_name apply_new_dfid_name apply_pidfd apply_error apply_range apply_mnt
    apply_record record_round parse_records parse_one_event clear_slot walk_round walk finish_walk
    parse_fid_events_into reject_version parse_fid_events
opened = tt
