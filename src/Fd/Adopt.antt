-- ===== src/Fd/Adopt.antt =====
-- src/fd.rs: a read adopts each descriptor number of its buffer at most once.
use fanotify_fid.Base.{
  ℤ, is_negative, ◌≡◌, refl, ◌∙◌, not, ◌&&◌, ◌||◌, Option, none, some, is_some, List, [], ◌∷◌, ◌++◌,
  map, All, if◌then◌else◌, arith,
}
use fanotify_fid.Owners.{
  contains, numbers, Distinct, first_mentions, contains-first_mentions, first_mentions-Distinct,
}
use fanotify_fid.Fd.Event.{FdEvent}

-- The event, and `already_adopted` after the call.
unfoldable pub adopt_reported : FdEvent → List ℤ → FdEvent × List ℤ
adopt_reported e already_adopted =
    if is_some e.fd || is_negative e.fd_field || contains e.fd_field already_adopted
    then (e, already_adopted)
    else (record e { fd = some e.fd_field }, already_adopted ++ e.fd_field ∷ [])

-- `for event in &mut events { event.adopt_reported(&mut adopted); }`
unfoldable pub adopt_fds : List FdEvent → List ℤ → List FdEvent
adopt_fds [] adopted = []
adopt_fds (event ∷ events) adopted =
    let (event', adopted') = adopt_reported event adopted in event' ∷ adopt_fds events adopted'

abbrev pub owned_fds : List FdEvent → List (Option ℤ)
owned_fds = map (λ (e : FdEvent). e.fd)

abbrev pub reported_fds : List FdEvent → List (Option ℤ)
reported_fds = map (λ (e : FdEvent). some e.fd_field)

abbrev pub fd_fields : List FdEvent → List ℤ
fd_fields = map (λ (e : FdEvent). e.fd_field)

abbrev pub Unowned : List FdEvent → Type 0
Unowned = All (λ (e : FdEvent). e.fd ≡ none)

adopt_fds-first_mentions :
    (events : List FdEvent) (adopted : List ℤ)
    → Unowned events
    → owned_fds (adopt_fds events adopted) ≡ first_mentions adopted (reported_fds events)
unfolding adopt_fds adopt_reported first_mentions
adopt_fds-first_mentions [] adopted h = refl
adopt_fds-first_mentions (event ∷ events) adopted h = ground (
  arith,
  adopt_fds-first_mentions events adopted h.1,
  adopt_fds-first_mentions events (adopted ++ event.fd_field ∷ []) h.1,
)

fd_fields-adopt_fds :
    (events : List FdEvent) (adopted : List ℤ)
    → fd_fields (adopt_fds events adopted) ≡ fd_fields events
unfolding adopt_fds adopt_reported
fd_fields-adopt_fds [] adopted = refl
fd_fields-adopt_fds (event ∷ events) adopted = ground (
  arith,
  fd_fields-adopt_fds events adopted,
  fd_fields-adopt_fds events (adopted ++ event.fd_field ∷ []),
)

-- After adoption no descriptor has two owners; a number has an owner exactly if some header
-- carried it and it is not negative; and every event keeps its header's number.
pub adopt_fds-owners :
    (events : List FdEvent)
    → Unowned events
    → Distinct (numbers (owned_fds (adopt_fds events [])))
      × ((n : ℤ)
          → contains n (numbers (owned_fds (adopt_fds events [])))
            ≡ (not (is_negative n) && contains n (numbers (reported_fds events))))
      × (fd_fields (adopt_fds events []) ≡ fd_fields events)
adopt_fds-owners events h = (
  rw (adopt_fds-first_mentions events [] h) (first_mentions-Distinct [] (reported_fds events)),
  λ n.
      rw (adopt_fds-first_mentions events [] h)
        (contains-first_mentions n [] (reported_fds events) ∙ (unfold contains in ground arith)),
  fd_fields-adopt_fds events [],
)
