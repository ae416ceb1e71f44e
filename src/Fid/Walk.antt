-- ===== src/Fid/Walk.antt =====
-- src/fid.rs: the walk over a buffer of events (`parse_fid_events_into`), and its two callers.
pub mod Spec
pub mod Reuse
pub mod Report
pub mod Version
pub mod Events
use fanotify_fid.Base.{
  ℕ, suc, ◌+◌, ◌-◌, ◌≤◌, ◌<◌, ◌≡◌, max, not, Bool, true, false, ◌&&◌, ◌||◌, List, [], ◌∷◌, ◌++◌,
  leb, ltb, ◌==◌, if◌then◌else◌, arith, Round, again, leave, loop, length, take, update_at,
  clear_slot,
}
use fanotify_fid.Bytes.{Bytes, Endian}
use fanotify_fid.Consts.{metadata_size, fanotify_metadata_version}
use fanotify_fid.Errors.{Result, ok, err, unknown_event_version}
use fanotify_fid.Parse.{
  EventStop, end, short_header, bad_event_len, bad_metadata_len, unknown_version, ParseReport,
}
use fanotify_fid.Fid.Event.{FidEvent, new, reset}
use fanotify_fid.Fid.Records.{EventMetadata, read_metadata, parse_one_event}

-- The locals of the loop; `events` is the caller's `Vec`, whose slots are used again.
pub record WalkState : Type 0 where
  pub events : List FidEvent
  pub parsed : ℕ
  pub offset : ℕ
  pub version_checked : Bool

module _ (en : Endian) (buf : Bytes) where
  unfoldable pub walk_round : WalkState → Round WalkState (WalkState × EventStop)
  walk_round s =
      let meta = read_metadata en buf s.offset in
      let records_start = max meta.metadata_len metadata_size in
      let checked = record s { version_checked = true } in
      if ltb (length buf) (s.offset + metadata_size)
      then leave (s, if s.offset == length buf then end else short_header)
      else if not s.version_checked && not (meta.vers == fanotify_metadata_version)
      then leave (checked, unknown_version meta.vers)
      else if ltb meta.event_len metadata_size || ltb (length buf - s.offset) meta.event_len
      then leave (checked, bad_event_len meta.event_len)
      else if ltb meta.event_len records_start
      then leave (checked, bad_metadata_len)
      else again (record {
        events =
            update_at s.parsed
              (λ event. parse_one_event en buf event s.offset meta.event_len records_start meta)
              (clear_slot reset new s.events s.parsed);
        parsed = s.parsed + 1;
        offset = s.offset + meta.event_len;
        version_checked = true;
      })

  pub walk_round_shrinks :
      (s s' : WalkState) → walk_round s ≡ again s' → length buf - s'.offset < length buf - s.offset
  unfolding walk_round
  walk_round_shrinks s s' h = ground arith

  unfoldable pub walk : WalkState → WalkState × EventStop
  walk = loop (λ s. length buf - s.offset) walk_round walk_round_shrinks

  -- `events.truncate(parsed)`, and the report.
  unfoldable pub finish_walk : WalkState × EventStop → List FidEvent × ParseReport
  finish_walk (s, stop) = (
    take s.parsed s.events,
    record { bytes_consumed = s.offset; bytes_left = length buf - s.offset; stop = stop },
  )

  unfoldable pub parse_fid_events_into : List FidEvent → List FidEvent × ParseReport
  parse_fid_events_into events =
      finish_walk
        (walk (record { events = events; parsed = 0; offset = 0; version_checked = false }))

  unfoldable pub parse_fid_events_reported : List FidEvent × ParseReport
  parse_fid_events_reported = parse_fid_events_into []

-- `if let EventStop::UnknownVersion(vers) = report.stop { return Err(…) }`
unfoldable pub reject_version {ℓ} : {E : Type ℓ} → E × ParseReport → Result E
reject_version (events, report) = elim report.stop [
  | unknown_version vers ↦ err (unknown_event_version vers)
  | _ ↦ ok events
]

unfoldable pub parse_fid_events : Endian → Bytes → Result (List FidEvent)
parse_fid_events en buf = reject_version (parse_fid_events_into en buf [])
