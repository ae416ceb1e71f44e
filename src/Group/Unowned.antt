-- ===== src/Group/Unowned.antt =====
-- Nothing that a parser returns owns a descriptor, so what a read adopts is owned once.
use fanotify_fid.Base.{
  ◌≡◌, refl, none, List, [], ◌∷◌, All, All-take, All-update_at, All-clear_slot, pos, arith, Round,
  again, leave, loop_inv, update_at, clear_slot,
}
use fanotify_fid.Bytes.{Bytes, Endian}
use fanotify_fid.Parse.{EventStop}
use fanotify_fid.Owners.{Distinct, numbers}
use fanotify_fid.Fid.Event.{FidEvent}
use fanotify_fid.Fid.Records.{EventMetadata, read_metadata}
use fanotify_fid.Fid.Records.Parsed.{NotOwned, IsParsed}
use fanotify_fid.Fid.Adopt.{adopt_pidfds, owned_pidfds, adopt_pidfds-owners}
use fanotify_fid.Fid.Walk.{parse_fid_events_into}
use fanotify_fid.Fid.Walk.Events.{parse_fid_events_into-IsParsed}
use fanotify_fid.Fd.Event.{FdEvent, new, reset}
use fanotify_fid.Fd.Adopt.{adopt_fds, owned_fds, adopt_fds-owners}
use fanotify_fid.Fd.Walk.{
  FdWalkState, fill_fd_event, fd_walk_round, fd_walk_round_shrinks, fd_walk, finish_fd_walk,
  parse_fd_events_into,
}

IsParsed-unowned :
    (es : List FidEvent) → All IsParsed es → All (λ (e : FidEvent). NotOwned e.pidfd) es
IsParsed-unowned [] h = tt
IsParsed-unowned (e ∷ es) h = (h.0.unowned, IsParsed-unowned es h.1)

module _ (en : Endian) (buf : Bytes) where
  -- Adoption after a parse: no pidfd has two owners.
  pub parse_fid-Distinct :
      (events : List FidEvent)
      → Distinct (numbers (owned_pidfds (adopt_pidfds (parse_fid_events_into en buf events).0 [])))
  parse_fid-Distinct events =
      (adopt_pidfds-owners _ (IsParsed-unowned _ (parse_fid_events_into-IsParsed en buf events))).0

  abbrev Slots : List FdEvent → Type 0
  Slots = All (λ (e : FdEvent). e.fd ≡ none)

  abbrev RoundSlots : Round FdWalkState (FdWalkState × EventStop) → Type 0
  RoundSlots (again s) = Slots s.events
  RoundSlots (leave r) = Slots r.0.events

  filled-Slots :
      (s : FdWalkState) (meta : EventMetadata)
      → Slots s.events
      → Slots (
          update_at s.parsed
            (fill_fd_event meta)
            (clear_slot reset (new 0 none (pos 0)) s.events s.parsed))
  unfolding reset new fill_fd_event
  filled-Slots s meta h =
      All-update_at (λ (e : FdEvent). e.fd ≡ none) s.parsed _ _ (λ x p. p)
        (All-clear_slot (λ (e : FdEvent). e.fd ≡ none) _ _ s.events s.parsed (λ x p. refl) refl h)

  fd_walk_round-RoundSlots :
      (s : FdWalkState) → Slots s.events → RoundSlots (fd_walk_round en buf s)
  unfolding fd_walk_round
  fd_walk_round-RoundSlots s h = ground (arith, filled-Slots s (read_metadata en buf s.offset) h)

  -- The parser of descriptor events owns no descriptor.
  parse_fd-Slots : Slots (parse_fd_events_into en buf []).0
  unfolding parse_fd_events_into finish_fd_walk fd_walk
  parse_fd-Slots =
      All-take (λ (e : FdEvent). e.fd ≡ none) _ _
        (loop_inv _ _ (fd_walk_round_shrinks en buf) {P = λ s. Slots s.events}
          {Q = λ r. Slots r.0.events} (λ s s' h e. rw e at (fd_walk_round-RoundSlots s h))
          (λ s r h e. rw e at (fd_walk_round-RoundSlots s h)) _ tt)

  pub parse_fd-Distinct :
      Distinct (numbers (owned_fds (adopt_fds (parse_fd_events_into en buf []).0 [])))
  parse_fd-Distinct = (adopt_fds-owners _ parse_fd-Slots).0
