-- ===== src/Fid/Wire/RoundTrip.antt =====
-- Round trip: the events that the kernel's layout writes are the events that the parser reads.
use fanotify_fid.Base.{
  ℕ, ◌+◌, ◌-◌, ◌<◌, ◌≡◌, refl, ap, ◌∙◌, Bool, true, false, List, [], ◌∷◌, ◌++◌, map, All, length,
  arith, length-append, if◌then◌else◌, ◌==◌, lt→ltb, again, leave, loop_again, loop_leave,
}
use native.Mathlib.Nat.{add-zero}
use mathlib.Core.List.{append_assoc, append-nil}
use fanotify_fid.Bytes.{Bytes, Endian}
use fanotify_fid.Bytes.Holds.{Holds, Holds-left, Holds-right, Holds-append}
use fanotify_fid.Consts.{metadata_size}
use fanotify_fid.Parse.{end, short_header}
use fanotify_fid.Fid.Event.{FidEvent}
use fanotify_fid.Fid.Records.{parse_one_event}
use fanotify_fid.Fid.Walk.{parse_fid_events_into}
use fanotify_fid.Fid.Walk.Spec.{
  verdict, event_at, event_here, pure_next, pure_round, pure_round_shrinks, pure_walk,
}
use fanotify_fid.Fid.Walk.Reuse.{report_walk, parse_fid_events_into-pure_walk}
use fanotify_fid.Fid.Wire.RecordWalk.{parse_records-wire}
use fanotify_fid.Fid.Wire.Event.{
  Notice, IsNotice, event_len, wire_event, length-wire_event, meaning, header_of, records_Holds,
  read_metadata-wire, begin_event-header_of,
}

module _ (en : Endian) where
  abbrev pub wire_events : List Notice → Bytes
  wire_events [] = []
  wire_events (n ∷ ns) = wire_event en n ++ wire_events ns

  module _ (buf : Bytes) where
    verdict-wire :
        (n : Notice) (at : ℕ) (checked : Bool)
        → IsNotice en n
        → Holds buf at (wire_event en n)
        → verdict en buf at checked ≡ event_here (header_of en n)
    unfolding verdict header_of
    verdict-wire n at checked v w =
        ground (arith, read_metadata-wire en n v w, length-wire_event en n, w.within)

    event_at-meaning :
        (n : Notice) (at : ℕ)
        → IsNotice en n
        → Holds buf at (wire_event en n)
        → event_at en buf at (header_of en n) ≡ meaning en n
    unfolding event_at parse_one_event meaning header_of
    event_at-meaning n at v w = rw (begin_event-header_of en n) (
        parse_records-wire en buf (at + event_len en n) n.infos (at + metadata_size) _ v.infos_fit
          (records_Holds en n v w) (omega arith))

    -- The pure walk over events of the layout.
    pure_walk-wire :
        (ns : List Notice) (done : List FidEvent) (at : ℕ) (checked : Bool) (fin : ℕ)
        → All (IsNotice en) ns
        → Holds buf at (wire_events ns)
        → at + length (wire_events ns) ≡ fin
        → length buf - fin < metadata_size
        → pure_walk en buf (record { done = done; offset = at; version_checked = checked })
          ≡ (done ++ map (meaning en) ns, fin, if fin == length buf then end else short_header)
    unfolding pure_walk
    pure_walk-wire [] done at checked fin v w at_fin short =
        loop_leave _ (pure_round en buf) (pure_round_shrinks en buf) stop
      where
        stop :
            pure_round en buf (record { done = done; offset = at; version_checked = checked })
            ≡ leave (done ++ [], fin, if fin == length buf then end else short_header)
        stop =
            unfold pure_round verdict pure_next in
            rw
              (
                append-nil,
                ← at_fin,
                add-zero,
                lt→ltb (length buf) (at + metadata_size) (omega (arith, w.within)),
              )
              refl
    pure_walk-wire (n ∷ ns) done at checked fin v w at_fin short =
        loop_again _ (pure_round en buf) (pure_round_shrinks en buf) step
        ∙ pure_walk-wire ns (done ++ meaning en n ∷ []) (at + event_len en n) true fin v.1 rest
            (omega (
              arith,
              at_fin,
              length-append (wire_event en n) (wire_events ns),
              length-wire_event en n,
            ))
            short
        ∙ ap (λ es. (es, fin, if fin == length buf then end else short_header))
            (append_assoc done (meaning en n ∷ []) (map (meaning en) ns))
      where
        here : Holds buf at (wire_event en n)
        here = Holds-left (wire_event en n) (wire_events ns) w

        step :
            pure_round en buf (record { done = done; offset = at; version_checked = checked })
            ≡ again (record {
              done = done ++ meaning en n ∷ [];
              offset = at + event_len en n;
              version_checked = true;
            })
        step =
            unfold pure_round pure_next in
            rw (verdict-wire n at checked v.0 here)
              (rw (event_at-meaning n at v.0 here) (unfold header_of in refl))

        rest : Holds buf (at + event_len en n) (wire_events ns)
        rest = rw (length-wire_event en n) at (Holds-right (wire_event en n) (wire_events ns) w)

  -- The events that the kernel's layout writes are the events that the parser returns, in both byte
  -- orders and whatever the `Vec` held; a tail too short for a header is left over and reported,
  -- and with no tail the walk is complete. Each record's fields are the kernel's, but for the words
  -- of RANGE and MNT: those are the eight bytes that stand four bytes in front of the kernel's.
  pub parse-wire_events :
      (ns : List Notice) (tail : Bytes) (events : List FidEvent)
      → All (IsNotice en) ns
      → length tail < metadata_size
      → parse_fid_events_into en (wire_events ns ++ tail) events ≡ (
        map (meaning en) ns,
        record {
          bytes_consumed = length (wire_events ns);
          bytes_left = length tail;
          stop = if length tail == 0 then end else short_header;
        },
      )
  unfolding report_walk
  parse-wire_events ns tail events v short =
      parse_fid_events_into-pure_walk en (wire_events ns ++ tail) events
      ∙ ap (report_walk en (wire_events ns ++ tail)) (
          pure_walk-wire (wire_events ns ++ tail) ns [] 0 false (length (wire_events ns)) v
            (Holds-append [] (wire_events ns) tail) (omega arith)
            (omega (arith, length-append (wire_events ns) tail)))
      ∙ ground (arith, length-append (wire_events ns) tail)
