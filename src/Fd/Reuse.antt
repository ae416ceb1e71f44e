-- ===== src/Fd/Reuse.antt =====
-- The slots of the caller's `Vec` leave no trace in the walk of src/fd.rs either.
use fanotify_fid.Base.{
  ◌-◌, ◌≤◌, ◌≡◌, refl, sym, ap, ◌∙◌, false, pos, none, List, [], ◌∷◌, ◌++◌, arith, again, loop_lem,
  loop_map, map_round, length, take, clear_slot, length-clear_slot, take-clear_slot,
  update_at-clear_slot, length-update_at, take-take,
}
use fanotify_fid.Bytes.{Bytes, Endian}
use fanotify_fid.Parse.{EventStop}
use fanotify_fid.Fid.Records.{EventMetadata, read_metadata}
use fanotify_fid.Fd.Event.{FdEvent, new, reset}
use fanotify_fid.Fd.Walk.{
  FdWalkState, fill_fd_event, fd_walk_round, fd_walk_round_shrinks, fd_walk, finish_fd_walk,
  parse_fd_events_into,
}

abbrev pub fresh_slot : FdEvent
fresh_slot = new 0 none (pos 0)

-- The event that the walk leaves in a slot.
pub fill_fd_event-reset :
    (meta : EventMetadata) (e : FdEvent)
    → fill_fd_event meta (reset e) ≡ fill_fd_event meta fresh_slot
unfolding fill_fd_event reset new
fill_fd_event-reset meta e = refl

abbrev pub HasSlots : FdWalkState → Type 0
HasSlots s = s.parsed ≤ length s.events

module _ (en : Endian) (buf : Bytes) where
  pub fd_walk_round-HasSlots :
      (s s' : FdWalkState) → HasSlots s → fd_walk_round en buf s ≡ again s' → HasSlots s'
  unfolding fd_walk_round
  fd_walk_round-HasSlots s s' h e = ground (
    arith,
    length-clear_slot reset fresh_slot s.events s.parsed h,
    length-update_at s.parsed (fill_fd_event (read_metadata en buf s.offset))
        (clear_slot reset fresh_slot s.events s.parsed),
  )

  -- The state without the slots that are not in use.
  trim : FdWalkState → FdWalkState
  trim s = record s { events = take s.parsed s.events }

  trim_result : FdWalkState × EventStop → FdWalkState × EventStop
  trim_result (s, stop) = (trim s, stop)

  filled : FdWalkState → EventMetadata → List FdEvent
  filled s meta = take s.parsed s.events ++ fill_fd_event meta fresh_slot ∷ []

  fd_walk_round-trim :
      (s : FdWalkState)
      → HasSlots s
      → fd_walk_round en buf (trim s) ≡ map_round trim trim_result (fd_walk_round en buf s)
  unfolding fd_walk_round trim trim_result
  fd_walk_round-trim s h = ground (
    arith,
    take-clear_slot reset fresh_slot (fill_fd_event meta) (fill_fd_event-reset meta) s.events
        s.parsed h,
    update_at-clear_slot reset fresh_slot (fill_fd_event meta) (fill_fd_event-reset meta) s.events
        s.parsed h,
  )
    where
      meta : EventMetadata
      meta = read_metadata en buf s.offset

  finish_fd_walk-trim :
      (r : FdWalkState × EventStop)
      → finish_fd_walk en buf (trim_result r) ≡ finish_fd_walk en buf r
  unfolding finish_fd_walk trim trim_result
  finish_fd_walk-trim (s, stop) = rw (take-take s.parsed s.parsed s.events (omega arith))

  fd_walk-trim :
      (s : FdWalkState) → HasSlots s → fd_walk en buf (trim s) ≡ trim_result (fd_walk en buf s)
  unfolding fd_walk
  fd_walk-trim =
      loop_map (λ s. length buf - s.offset) (fd_walk_round en buf) (fd_walk_round_shrinks en buf)
        (fd_walk_round en buf) (fd_walk en buf)
        (loop_lem (λ s. length buf - s.offset) (fd_walk_round en buf)
          (fd_walk_round_shrinks en buf))
        trim trim_result {P = HasSlots} fd_walk_round-HasSlots fd_walk_round-trim

  -- Parsing into a `Vec` gives the events and the report of parsing into a fresh one, whatever
  -- events, and so whatever descriptors, the `Vec` held before.
  pub parse_fd_events_into-reuse :
      (events : List FdEvent) → parse_fd_events_into en buf events ≡ parse_fd_events_into en buf []
  unfolding parse_fd_events_into trim
  parse_fd_events_into-reuse events =
      sym (finish_fd_walk-trim (fd_walk en buf start))
      ∙ ap (finish_fd_walk en buf) (sym (fd_walk-trim start (omega arith)))
    where
      start : FdWalkState
      start = record { events = events; parsed = 0; offset = 0; version_checked = false }
