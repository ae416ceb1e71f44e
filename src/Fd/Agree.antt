-- ===== src/Fd/Agree.antt =====
-- The two walks, of src/fid.rs and of src/fd.rs, see the same events in every buffer.
use fanotify_fid.Base.{
  ℕ, ◌+◌, ◌-◌, ◌<◌, ◌≡◌, refl, sym, ap, ◌∙◌, max, Bool, true, false, ℤ, List, [], ◌∷◌, ◌++◌, map,
  arith, Round, again, leave, loop, loop_lem, loop_map, map_round, run_round, length, take,
  take-clear_slot,
}
use mathlib.Core.List.{map-append}
use fanotify_fid.Bytes.{Bytes, Endian}
use fanotify_fid.Consts.{metadata_size}
use fanotify_fid.Parse.{EventStop}
use fanotify_fid.Fid.Event
use fanotify_fid.Fid.Event.{FidEvent}
use fanotify_fid.Fid.Records.{EventMetadata, read_metadata, begin_event}
use fanotify_fid.Fid.Records.Header.{parse_one_event-header}
use fanotify_fid.Fid.Walk.{parse_fid_events_into}
use fanotify_fid.Fid.Walk.Spec.{
  PureState, at_start, Verdict, stop_here, event_here, verdict, event_at, pure_next, pure_round,
  pure_round_shrinks, pure_walk,
}
use fanotify_fid.Fid.Walk.Reuse.{report_walk, parse_fid_events_into-pure_walk}
use fanotify_fid.Fd.Event.{FdEvent, reset}
use fanotify_fid.Fd.Reuse.{fresh_slot, fill_fd_event-reset, HasSlots, fd_walk_round-HasSlots}
use fanotify_fid.Fd.Walk.{
  FdWalkState, fill_fd_event, fd_walk_round, fd_walk_round_shrinks, fd_walk, finish_fd_walk,
  parse_fd_events_into,
}

-- What both formats say of an event.
abbrev pub Subject : Type 0
Subject = ℕ × ℤ

abbrev pub fid_subject : FidEvent → Subject
fid_subject e = (e.mask, e.pid)

abbrev pub fd_subject : FdEvent → Subject
fd_subject e = (e.mask, e.pid)

record Skeleton : Type 0 where
  done : List Subject
  offset : ℕ
  version_checked : Bool

module _ (en : Endian) (buf : Bytes) where
  skeleton_next : Skeleton → Verdict → Round Skeleton (List Subject × ℕ × EventStop)
  skeleton_next s (stop_here stop) = leave (s.done, s.offset, stop)
  skeleton_next s (event_here meta) = again (record {
    done = s.done ++ (meta.mask, meta.pid) ∷ [];
    offset = s.offset + meta.event_len;
    version_checked = true;
  })

  skeleton_round : Skeleton → Round Skeleton (List Subject × ℕ × EventStop)
  skeleton_round s = skeleton_next s (verdict en buf s.offset s.version_checked)

  skeleton_round_shrinks :
      (s s' : Skeleton)
      → skeleton_round s ≡ again s'
      → length buf - s'.offset < length buf - s.offset
  unfolding skeleton_round skeleton_next verdict
  skeleton_round_shrinks s s' h = ground arith

  skeleton_walk : Skeleton → List Subject × ℕ × EventStop
  skeleton_walk = loop (λ s. length buf - s.offset) skeleton_round skeleton_round_shrinks

  skeleton_walk_lem : (s : Skeleton) → skeleton_walk s ≡ run_round skeleton_walk (skeleton_round s)
  unfolding skeleton_walk
  skeleton_walk_lem s =
      loop_lem (λ s. length buf - s.offset) skeleton_round skeleton_round_shrinks s

  -- The walk of src/fid.rs.
  of_fid : PureState → Skeleton
  of_fid s = record {
    done = map fid_subject s.done;
    offset = s.offset;
    version_checked = s.version_checked;
  }

  of_fid_result : List FidEvent × ℕ × EventStop → List Subject × ℕ × EventStop
  of_fid_result (events, offset, stop) = (map fid_subject events, offset, stop)

  skeleton_next-of_fid :
      (s : PureState) (v : Verdict)
      → skeleton_next (of_fid s) v ≡ map_round of_fid of_fid_result (pure_next en buf s v)
  unfolding skeleton_next pure_next of_fid of_fid_result event_at begin_event
  skeleton_next-of_fid s (stop_here stop) = refl
  skeleton_next-of_fid s (event_here meta) = ground (
    arith,
    map-append fid_subject s.done (event_at en buf s.offset meta ∷ []),
    parse_one_event-header en buf Event.new s.offset meta.event_len
        (max meta.metadata_len metadata_size) meta,
  )

  skeleton-fid : (s : PureState) → skeleton_walk (of_fid s) ≡ of_fid_result (pure_walk en buf s)
  unfolding pure_walk
  skeleton-fid s =
      loop_map (λ s. length buf - s.offset) (pure_round en buf) (pure_round_shrinks en buf)
        skeleton_round skeleton_walk skeleton_walk_lem of_fid of_fid_result {P = λ s. Unit {0}}
        (λ s s' h e. tt)
        (λ s h. unfold skeleton_round pure_round of_fid in skeleton_next-of_fid s _) s tt

  -- The walk of src/fd.rs.
  of_fd : FdWalkState → Skeleton
  of_fd s = record {
    done = map fd_subject (take s.parsed s.events);
    offset = s.offset;
    version_checked = s.version_checked;
  }

  of_fd_result : FdWalkState × EventStop → List Subject × ℕ × EventStop
  of_fd_result (s, stop) = (map fd_subject (take s.parsed s.events), s.offset, stop)

  skeleton_round-of_fd :
      (s : FdWalkState)
      → HasSlots s
      → skeleton_round (of_fd s) ≡ map_round of_fd of_fd_result (fd_walk_round en buf s)
  unfolding skeleton_round skeleton_next verdict fd_walk_round of_fd of_fd_result
  skeleton_round-of_fd s h = ground (
    arith,
    take-clear_slot reset fresh_slot (fill_fd_event meta) (fill_fd_event-reset meta) s.events
        s.parsed h,
    map-append fd_subject (take s.parsed s.events) (fill_fd_event meta fresh_slot ∷ []),
    subject meta,
  )
    where
      meta : EventMetadata
      meta = read_metadata en buf s.offset

      subject : (m : EventMetadata) → fd_subject (fill_fd_event m fresh_slot) ≡ (m.mask, m.pid)
      subject m = unfold fill_fd_event in refl

  skeleton-fd :
      (s : FdWalkState) → HasSlots s → skeleton_walk (of_fd s) ≡ of_fd_result (fd_walk en buf s)
  unfolding fd_walk
  skeleton-fd =
      loop_map (λ s. length buf - s.offset) (fd_walk_round en buf) (fd_walk_round_shrinks en buf)
        skeleton_round skeleton_walk skeleton_walk_lem of_fd of_fd_result {P = HasSlots}
        (fd_walk_round-HasSlots en buf) skeleton_round-of_fd

  -- For every buffer, and whatever the two `Vec`s held, the two formats' parsers give the same
  -- report and see the same events, with the same mask and pid each.
  pub parsers_agree :
      (fid_events : List FidEvent) (fd_events : List FdEvent)
      → let fid = parse_fid_events_into en buf fid_events in
        let fd = parse_fd_events_into en buf fd_events in
        (fd.1 ≡ fid.1) × (map fd_subject fd.0 ≡ map fid_subject fid.0)
  unfolding report_walk parse_fd_events_into finish_fd_walk of_fid_result of_fd_result
  parsers_agree fid_events fd_events = rw (parse_fid_events_into-pure_walk en buf fid_events) (
    ap (λ r. record { bytes_consumed = r.1; bytes_left = length buf - r.1; stop = r.2 }) same,
    ap (λ r. r.0) same,
  )
    where
      start : FdWalkState
      start = record { events = fd_events; parsed = 0; offset = 0; version_checked = false }

      same : of_fd_result (fd_walk en buf start) ≡ of_fid_result (pure_walk en buf at_start)
      same = sym (skeleton-fd start (omega arith)) ∙ (unfold of_fd of_fid in skeleton-fid at_start)
