-- ===== src/Fid/Walk/Reuse.antt =====
-- The slots of the caller's `Vec` leave no trace: the walk is the pure one.
use fanotify_fid.Base.{
  ℕ, ◌-◌, ◌≤◌, ◌≡◌, refl, ap, ◌∙◌, sym, max, false, List, [], arith, again, loop_map, map_round,
  length, take, clear_slot, length-clear_slot, take-clear_slot, length-update_at,
}
use fanotify_fid.Bytes.{Bytes, Endian}
use fanotify_fid.Consts.{metadata_size}
use fanotify_fid.Parse.{EventStop, ParseReport}
use fanotify_fid.Fid.Event.{FidEvent, new, reset}
use fanotify_fid.Fid.Records.{read_metadata, parse_one_event}
use fanotify_fid.Fid.Walk.{
  WalkState, walk_round, walk_round_shrinks, walk, finish_walk, parse_fid_events_into,
}
use fanotify_fid.Fid.Walk.Spec.{
  PureState, pure_next, verdict, event_at, pure_round, pure_walk, pure_walk_lem, at_start,
}

reset-new : (e : FidEvent) → reset e ≡ new
unfolding reset new
reset-new e = refl

module _ (en : Endian) (buf : Bytes) where
  -- What the walk does to the slot of the event at `offset`.
  abbrev fill : ℕ → FidEvent → FidEvent
  fill offset event =
      let meta = read_metadata en buf offset in
      parse_one_event en buf event offset meta.event_len (max meta.metadata_len metadata_size) meta

  forget_slots : WalkState → PureState
  forget_slots s = record {
    done = take s.parsed s.events;
    offset = s.offset;
    version_checked = s.version_checked;
  }

  forget_result : WalkState × EventStop → List FidEvent × ℕ × EventStop
  forget_result (s, stop) = (take s.parsed s.events, s.offset, stop)

  abbrev HasSlots : WalkState → Type 0
  HasSlots s = s.parsed ≤ length s.events

  walk_round-HasSlots :
      (s s' : WalkState) → HasSlots s → walk_round en buf s ≡ again s' → HasSlots s'
  unfolding walk_round
  walk_round-HasSlots s s' h e = ground (
    arith,
    length-clear_slot reset new s.events s.parsed h,
    length-update_at s.parsed (fill s.offset) (clear_slot reset new s.events s.parsed),
  )

  pure_round-forget_slots :
      (s : WalkState)
      → HasSlots s
      → pure_round en buf (forget_slots s)
        ≡ map_round forget_slots forget_result (walk_round en buf s)
  unfolding pure_round verdict pure_next walk_round event_at forget_slots forget_result
  pure_round-forget_slots s h = ground (
    arith,
    take-clear_slot reset new (fill s.offset) (λ e. ap (fill s.offset) (reset-new e)) s.events
        s.parsed h,
  )

  walk-pure_walk :
      (s : WalkState)
      → HasSlots s
      → pure_walk en buf (forget_slots s) ≡ forget_result (walk en buf s)
  unfolding walk
  walk-pure_walk =
      loop_map (λ s. length buf - s.offset) (walk_round en buf) (walk_round_shrinks en buf)
        (pure_round en buf) (pure_walk en buf) (pure_walk_lem en buf) forget_slots forget_result
        {P = HasSlots} walk_round-HasSlots pure_round-forget_slots

  -- The result of the pure walk from the start of the buffer, as the parser returns it.
  unfoldable pub report_walk : List FidEvent × ℕ × EventStop → List FidEvent × ParseReport
  report_walk (events, offset, stop) =
      (events, record { bytes_consumed = offset; bytes_left = length buf - offset; stop = stop })

  pub parse_fid_events_into-pure_walk :
      (events : List FidEvent)
      → parse_fid_events_into en buf events ≡ report_walk (pure_walk en buf at_start)
  unfolding parse_fid_events_into finish_walk report_walk forget_result forget_slots
  parse_fid_events_into-pure_walk events = sym (
      ap report_walk (
        walk-pure_walk (record { events = events; parsed = 0; offset = 0; version_checked = false })
          (omega arith)))

  -- Parsing into a `Vec` gives the events and the report of parsing into a fresh one, whatever
  -- events the `Vec` held before.
  pub parse_fid_events_into-reuse :
      (events : List FidEvent)
      → parse_fid_events_into en buf events ≡ parse_fid_events_into en buf []
  parse_fid_events_into-reuse events =
      parse_fid_events_into-pure_walk events ∙ sym (parse_fid_events_into-pure_walk [])
