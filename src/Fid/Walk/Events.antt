-- ===== src/Fid/Walk/Events.antt =====
-- Every event that the walk returns is one that the record walk made.
use fanotify_fid.Base.{ℕ, List, [], ◌∷◌, ◌++◌, All, Round, again, leave, loop_inv}
use fanotify_fid.Bytes.{Bytes, Endian}
use fanotify_fid.Parse.{EventStop}
use fanotify_fid.Fid.Event.{FidEvent}
use fanotify_fid.Fid.Records.Parsed.{IsParsed, parse_one_event-IsParsed}
use fanotify_fid.Fid.Walk.{parse_fid_events_into}
use fanotify_fid.Fid.Walk.Spec.{
  PureState, at_start, Verdict, stop_here, event_here, verdict, event_at, pure_next, pure_round,
  pure_round_shrinks, pure_walk,
}
use fanotify_fid.Fid.Walk.Reuse.{report_walk, parse_fid_events_into-pure_walk}

All-append_end :
    (es : List FidEvent) {e : FidEvent} → All IsParsed es → IsParsed e → All IsParsed (es ++ e ∷ [])
All-append_end [] h p = (p, tt)
All-append_end (e ∷ es) h p = (h.0, All-append_end es h.1 p)

module _ (en : Endian) (buf : Bytes) where
  abbrev AllRound : Round PureState (List FidEvent × ℕ × EventStop) → Type 0
  AllRound (again s) = All IsParsed s.done
  AllRound (leave r) = All IsParsed r.0

  pure_next-IsParsed :
      (s : PureState) (v : Verdict) → All IsParsed s.done → AllRound (pure_next en buf s v)
  unfolding pure_next event_at
  pure_next-IsParsed s (stop_here stop) h = h
  pure_next-IsParsed s (event_here meta) h =
      All-append_end s.done h (parse_one_event-IsParsed en buf s.offset _ _ meta)

  pure_round-IsParsed : (s : PureState) → All IsParsed s.done → AllRound (pure_round en buf s)
  unfolding pure_round
  pure_round-IsParsed s h = pure_next-IsParsed s (verdict en buf s.offset s.version_checked) h

  -- In every event of every buffer: no descriptor is owned and no path is attached; a name comes
  -- with its handle; any handle comes with a filesystem id; and every handle has the length of a
  -- `struct file_handle`, 8 to 136 bytes.
  pub parse_fid_events_into-IsParsed :
      (events : List FidEvent) → All IsParsed (parse_fid_events_into en buf events).0
  unfolding report_walk pure_walk
  parse_fid_events_into-IsParsed events = rw (parse_fid_events_into-pure_walk en buf events) (
      loop_inv _ _ (pure_round_shrinks en buf) {P = λ s. All IsParsed s.done}
        {Q = λ r. All IsParsed r.0} (λ s s' h e. rw e at (pure_round-IsParsed s h))
        (λ s r h e. rw e at (pure_round-IsParsed s h)) at_start tt)
