-- ===== src/Fd/Walk.antt =====
-- src/fd.rs: `parse_fd_events_into` and `parse_fd_events`.
use fanotify_fid.Base.{
  ℕ, ◌+◌, ◌-◌, ◌<◌, ◌≡◌, max, not, Bool, true, false, ◌&&◌, ◌||◌, none, List, [], ltb, ◌==◌, pos,
  if◌then◌else◌, arith, Round, again, leave, loop, length, take, update_at, clear_slot,
}
use fanotify_fid.Bytes.{Bytes, Endian}
use fanotify_fid.Consts.{metadata_size, fanotify_metadata_version}
use fanotify_fid.Parse.{
  EventStop, end, short_header, bad_event_len, bad_metadata_len, unknown_version, ParseReport,
}
use fanotify_fid.Fid.Records.{EventMetadata, read_metadata}
use fanotify_fid.Fd.Event.{FdEvent, new, reset}

pub record FdWalkState : Type 0 where
  pub events : List FdEvent
  pub parsed : ℕ
  pub offset : ℕ
  pub version_checked : Bool

-- `event.mask = meta.mask; event.pid = meta.pid; event.fd_field = meta.fd;`
unfoldable pub fill_fd_event : EventMetadata → FdEvent → FdEvent
fill_fd_event meta e = record e { mask = meta.mask; pid = meta.pid; fd_field = meta.fd }

module _ (en : Endian) (buf : Bytes) where
  unfoldable pub fd_walk_round : FdWalkState → Round FdWalkState (FdWalkState × EventStop)
  fd_walk_round s =
      let meta = read_metadata en buf s.offset in
      let records_start = max meta.metadata_len metadata_size in
      let checked = record s { version_checked = true } in
      if ltb (length buf) (s.offset + metadata_size)
      then leave (s, if s.offset == length buf then end else short_header)
      else if not s.version_checked && not (meta.vers == fanotify_metadata_version)
      then leave (checked, unknown_version meta.vers)
      else if ltb meta.event_len metadata_size || ltb (length buf - s.offset) meta.event_len
      then leave (checked, bad_event_len meta.event_len)
      else if ltb meta.event_len records_start
      then leave (checked, bad_metadata_len)
      else again (record {
        events =
            update_at s.parsed (fill_fd_event meta)
              (clear_slot reset (new 0 none (pos 0)) s.events s.parsed);
        parsed = s.parsed + 1;
        offset = s.offset + meta.event_len;
        version_checked = true;
      })

  pub fd_walk_round_shrinks :
      (s s' : FdWalkState)
      → fd_walk_round s ≡ again s'
      → length buf - s'.offset < length buf - s.offset
  unfolding fd_walk_round
  fd_walk_round_shrinks s s' h = ground arith

  unfoldable pub fd_walk : FdWalkState → FdWalkState × EventStop
  fd_walk = loop (λ s. length buf - s.offset) fd_walk_round fd_walk_round_shrinks

  unfoldable pub finish_fd_walk : FdWalkState × EventStop → List FdEvent × ParseReport
  finish_fd_walk (s, stop) = (
    take s.parsed s.events,
    record { bytes_consumed = s.offset; bytes_left = length buf - s.offset; stop = stop },
  )

  unfoldable pub parse_fd_events_into : List FdEvent → List FdEvent × ParseReport
  parse_fd_events_into events =
      finish_fd_walk
        (fd_walk (record { events = events; parsed = 0; offset = 0; version_checked = false }))

  unfoldable pub parse_fd_events : List FdEvent × ParseReport
  parse_fd_events = parse_fd_events_into []
