-- ===== src/Fid/Walk/Report.antt =====
-- What the report of a walk says is so.
use fanotify_fid.Base.{
  ℕ, ◌+◌, ◌*◌, ◌≤◌, ◌≡◌, ◌↔◌, true, List, [], ◌∷◌, arith, again, leave, loop_inv, length,
  length-append,
}
use fanotify_fid.Bytes.{Bytes, Endian}
use fanotify_fid.Consts.{metadata_size}
use fanotify_fid.Parse.{EventStop, end, is_complete}
use fanotify_fid.Fid.Event.{FidEvent}
use fanotify_fid.Fid.Records.{read_metadata}
use fanotify_fid.Fid.Walk.{parse_fid_events_into}
use fanotify_fid.Fid.Walk.Spec.{
  PureState, verdict, pure_next, pure_round, pure_round_shrinks, pure_walk, event_at, at_start,
}
use fanotify_fid.Fid.Walk.Reuse.{report_walk, parse_fid_events_into-pure_walk}

module _ (en : Endian) (buf : Bytes) where
  abbrev Within : PureState → Type 0
  Within s = (s.offset ≤ length buf) × (metadata_size * length s.done ≤ s.offset)

  abbrev Reported : List FidEvent × ℕ × EventStop → Type 0
  Reported (events, offset, stop) =
      (offset ≤ length buf)
      × (metadata_size * length events ≤ offset)
      × ((stop ≡ end) ↔ (offset ≡ length buf))

  pure_round-Within : (s s' : PureState) → Within s → pure_round en buf s ≡ again s' → Within s'
  unfolding pure_round verdict pure_next
  pure_round-Within s s' h e =
      ground (
        arith,
        length-append s.done (event_at en buf s.offset (read_metadata en buf s.offset) ∷ []),
      )

  pure_round-Reported :
      (s : PureState) (r : List FidEvent × ℕ × EventStop)
      → Within s
      → pure_round en buf s ≡ leave r
      → Reported r
  unfolding pure_round verdict pure_next
  pure_round-Reported s r h e = ground arith

  pub pure_walk-Reported : Reported (pure_walk en buf at_start)
  unfolding pure_walk
  pure_walk-Reported =
      loop_inv _ _ (pure_round_shrinks en buf) {P = Within} {Q = Reported} pure_round-Within
        pure_round-Reported at_start (omega arith)

  -- For every buffer: the bytes consumed and the bytes left make up the buffer, every event took
  -- at least the 24 bytes of a header of what was consumed, and the report is complete exactly
  -- when no byte is left.
  pub parse_fid_events_into-report :
      (events : List FidEvent)
      → let (parsed, report) = parse_fid_events_into en buf events in
        (report.bytes_consumed + report.bytes_left ≡ length buf)
        × (metadata_size * length parsed ≤ report.bytes_consumed)
        × ((is_complete report ≡ true) ↔ (report.bytes_left ≡ 0))
  unfolding report_walk is_complete
  parse_fid_events_into-report events =
      rw (parse_fid_events_into-pure_walk en buf events)
        (from_pure (pure_walk en buf at_start) pure_walk-Reported)
    where
      from_pure :
          (r : List FidEvent × ℕ × EventStop)
          → Reported r
          → ((report_walk en buf r).1.bytes_consumed + (report_walk en buf r).1.bytes_left
              ≡ length buf)
            × (metadata_size * length (report_walk en buf r).0
                ≤ (report_walk en buf r).1.bytes_consumed)
            × ((is_complete (report_walk en buf r).1 ≡ true)
                ↔ ((report_walk en buf r).1.bytes_left ≡ 0))
      from_pure (parsed, offset, end) h = ground arith
      from_pure (parsed, offset, stop) h = ground arith
