-- ===== src/Fd/RoundTrip.antt =====
-- The descriptor events that the kernel's layout writes are the events that src/fd.rs reads.
use fanotify_fid.Base.{
  ℕ, ◌+◌, ◌-◌, ◌<◌, ◌≡◌, refl, ap, ◌∙◌, true, none, List, [], ◌∷◌, ◌++◌, map, All, length, arith,
  length-append, if◌then◌else◌, ◌==◌, lt→ltb, again, leave, loop_again, loop_leave, take, update_at,
  clear_slot, take-clear_slot,
}
use native.Mathlib.Nat.{add-zero}
use mathlib.Core.List.{append_assoc, append-nil}
use fanotify_fid.Bytes.{Bytes, Endian}
use fanotify_fid.Bytes.Holds.{Holds, Holds-left, Holds-right, Holds-append}
use fanotify_fid.Consts.{metadata_size}
use fanotify_fid.Parse.{ParseReport, end, short_header}
use fanotify_fid.Fid.Wire.Event.{
  Notice, IsNotice, event_len, wire_event, length-wire_event, header_of, read_metadata-wire,
}
use fanotify_fid.Fid.Wire.RoundTrip.{wire_events}
use fanotify_fid.Fd.Event.{FdEvent, new, reset}
use fanotify_fid.Fd.Reuse.{fresh_slot, fill_fd_event-reset, HasSlots, fd_walk_round-HasSlots}
use fanotify_fid.Fd.Walk.{
  FdWalkState, fill_fd_event, fd_walk_round, fd_walk_round_shrinks, fd_walk, finish_fd_walk,
  parse_fd_events_into,
}

-- The event that a reader should have, before adoption.
unfoldable pub fd_meaning : Notice → FdEvent
fd_meaning n = record { mask = n.mask; pid = n.pid; fd = none; fd_field = n.fd }

module _ (en : Endian) where
  module _ (buf : Bytes) where
    -- A round over an event of the layout.
    after : FdWalkState → Notice → FdWalkState
    after s n = record {
      events =
          update_at s.parsed (fill_fd_event (header_of en n))
            (clear_slot reset fresh_slot s.events s.parsed);
      parsed = s.parsed + 1;
      offset = s.offset + event_len en n;
      version_checked = true;
    }

    fd_walk_round-after :
        (s : FdWalkState) (n : Notice)
        → IsNotice en n
        → Holds buf s.offset (wire_event en n)
        → fd_walk_round en buf s ≡ again (after s n)
    unfolding fd_walk_round header_of after
    fd_walk_round-after s n v w =
        ground (arith, read_metadata-wire en n v w, length-wire_event en n, w.within)

    after-events :
        (s : FdWalkState) (n : Notice)
        → HasSlots s
        → take (after s n).parsed (after s n).events ≡ take s.parsed s.events ++ fd_meaning n ∷ []
    unfolding after
    after-events s n h =
        take-clear_slot reset fresh_slot (fill_fd_event (header_of en n))
          (fill_fd_event-reset (header_of en n)) s.events s.parsed h
        ∙ (unfold fd_meaning fill_fd_event header_of new in refl)

    fd_walk-wire :
        (ns : List Notice) (s : FdWalkState) (fin : ℕ)
        → HasSlots s
        → All (IsNotice en) ns
        → Holds buf s.offset (wire_events en ns)
        → s.offset + length (wire_events en ns) ≡ fin
        → length buf - fin < metadata_size
        → finish_fd_walk en buf (fd_walk en buf s) ≡ (
          take s.parsed s.events ++ map fd_meaning ns,
          record {
            bytes_consumed = fin;
            bytes_left = length buf - fin;
            stop = if fin == length buf then end else short_header;
          },
        )
    unfolding fd_walk
    fd_walk-wire [] s fin slots v w at_fin short =
        ap (finish_fd_walk en buf)
          (loop_leave _ (fd_walk_round en buf) (fd_walk_round_shrinks en buf) stop)
        ∙ (unfold finish_fd_walk in rw (append-nil, ← at_fin, add-zero) refl)
      where
        stop :
            fd_walk_round en buf s ≡ leave (s, if s.offset == length buf then end else short_header)
        stop =
            unfold fd_walk_round in
            rw (lt→ltb (length buf) (s.offset + metadata_size) (omega (arith, w.within))) refl
    fd_walk-wire (n ∷ ns) s fin slots v w at_fin short =
        let here = Holds-left (wire_event en n) (wire_events en ns) w in
        let step = fd_walk_round-after s n v.0 here in
        ap (finish_fd_walk en buf)
          (loop_again _ (fd_walk_round en buf) (fd_walk_round_shrinks en buf) step)
        ∙ fd_walk-wire ns (after s n) fin (fd_walk_round-HasSlots en buf s (after s n) slots step)
            v.1 (unfold after in rest) (unfold after in total) short
        ∙ ap (λ es. (es, report))
            (ap (λ es. es ++ map fd_meaning ns) (after-events s n slots)
              ∙ append_assoc (take s.parsed s.events) (fd_meaning n ∷ []) (map fd_meaning ns))
      where
        rest : Holds buf (s.offset + event_len en n) (wire_events en ns)
        rest = rw (length-wire_event en n) at (Holds-right (wire_event en n) (wire_events en ns) w)

        report : ParseReport
        report = record {
          bytes_consumed = fin;
          bytes_left = length buf - fin;
          stop = if fin == length buf then end else short_header;
        }

        total : s.offset + event_len en n + length (wire_events en ns) ≡ fin
        total = omega (
          arith,
          at_fin,
          length-append (wire_event en n) (wire_events en ns),
          length-wire_event en n,
        )

  -- The events that the kernel's layout writes are the events that the parser of descriptor events
  -- returns, each with its header's mask, process and descriptor number and with no descriptor yet,
  -- in both byte orders and whatever the `Vec` held; a tail too short for a header is left over
  -- and reported, and with no tail the walk is complete.
  pub parse_fd_events-wire_events :
      (ns : List Notice) (tail : Bytes) (events : List FdEvent)
      → All (IsNotice en) ns
      → length tail < metadata_size
      → parse_fd_events_into en (wire_events en ns ++ tail) events ≡ (
        map fd_meaning ns,
        record {
          bytes_consumed = length (wire_events en ns);
          bytes_left = length tail;
          stop = if length tail == 0 then end else short_header;
        },
      )
  unfolding parse_fd_events_into
  parse_fd_events-wire_events ns tail events v short =
      fd_walk-wire (wire_events en ns ++ tail) ns _ (length (wire_events en ns)) (omega arith) v
        (Holds-append [] (wire_events en ns) tail) (omega arith)
        (omega (arith, length-append (wire_events en ns) tail))
      ∙ ground (arith, length-append (wire_events en ns) tail)
