-- ===== src/Fid/Adopt.antt =====
-- src/fid.rs and src/group.rs: a read adopts each pidfd number of its buffer at most once.
use fanotify_fid.Base.{
  ℤ, is_negative, eq_ℤ_iff, ◌≡◌, refl, ◌∙◌, Bool, true, false, not, ◌&&◌, ◌||◌, Option, none, some,
  List, [], ◌∷◌, ◌++◌, map, All, if◌then◌else◌, arith,
}
use fanotify_fid.Owners.{
  contains, numbers, Distinct, first_mentions, contains-first_mentions, first_mentions-Distinct,
}
use fanotify_fid.Fid.Event.{FidEvent, Pidfd, missing, fd, unavailable, pidfd_eq}
use fanotify_fid.Fid.Records.Parsed.{NotOwned}

-- `Pidfd::as_fd`, the number of the descriptor.
unfoldable pub as_fd : Pidfd → Option ℤ
as_fd (fd n) = some n
as_fd _ = none

unfoldable pub reported_pidfd_number : Pidfd → Option ℤ
reported_pidfd_number (unavailable raw) = some raw
reported_pidfd_number _ = none

-- The pidfd, and `already_adopted` after the call.
unfoldable pub adopt_reported_pidfd : ℤ → List ℤ → Pidfd × List ℤ
adopt_reported_pidfd raw already_adopted =
    if is_negative raw || contains raw already_adopted
    then (unavailable raw, already_adopted)
    else (fd raw, already_adopted ++ raw ∷ [])

-- `for event in &mut events { … }`
unfoldable pub adopt_pidfds : List FidEvent → List ℤ → List FidEvent
adopt_pidfds [] adopted = []
adopt_pidfds (event ∷ events) adopted = elim (reported_pidfd_number event.pidfd) [
  | none ↦ event ∷ adopt_pidfds events adopted
  | some raw ↦
      let (pidfd, adopted') = adopt_reported_pidfd raw adopted in
      record event { pidfd = pidfd } ∷ adopt_pidfds events adopted'
]

abbrev pub owned_pidfds : List FidEvent → List (Option ℤ)
owned_pidfds = map (λ (e : FidEvent). as_fd e.pidfd)

abbrev pub reported_pidfds : List FidEvent → List (Option ℤ)
reported_pidfds = map (λ (e : FidEvent). reported_pidfd_number e.pidfd)

abbrev pub Unowned : List FidEvent → Type 0
Unowned = All (λ (e : FidEvent). NotOwned e.pidfd)

adopt_pidfd_first :
    (event : FidEvent) (events : List FidEvent) (adopted : List ℤ) (p : Pidfd)
    → ((seen : List ℤ)
        → owned_pidfds (adopt_pidfds events seen) ≡ first_mentions seen (reported_pidfds events))
    → event.pidfd ≡ p
    → NotOwned p
    → owned_pidfds (adopt_pidfds (event ∷ events) adopted)
      ≡ first_mentions adopted (reported_pidfds (event ∷ events))
unfolding adopt_pidfds adopt_reported_pidfd reported_pidfd_number as_fd first_mentions
adopt_pidfd_first event events adopted missing ih e h = ground (arith, ih adopted)
adopt_pidfd_first event events adopted (fd n) ih e h = absurd h
adopt_pidfd_first event events adopted (unavailable n) ih e h =
    ground (arith, ih adopted, ih (adopted ++ n ∷ []))

pub adopt_pidfds-first_mentions :
    (events : List FidEvent) (adopted : List ℤ)
    → Unowned events
    → owned_pidfds (adopt_pidfds events adopted) ≡ first_mentions adopted (reported_pidfds events)
unfolding adopt_pidfds first_mentions
adopt_pidfds-first_mentions [] adopted h = refl
adopt_pidfds-first_mentions (event ∷ events) adopted h =
    adopt_pidfd_first event events adopted event.pidfd
      (λ seen. adopt_pidfds-first_mentions events seen h.1) refl h.0

-- Each event still names the process that it named: the pidfds compare equal.
abbrev pub same_pidfds : List FidEvent → List FidEvent → Bool
same_pidfds [] [] = true
same_pidfds (e ∷ es) (f ∷ fs) = pidfd_eq e.pidfd f.pidfd && same_pidfds es fs
same_pidfds _ _ = false

adopt_pidfd_same :
    (event : FidEvent) (events : List FidEvent) (adopted : List ℤ) (p : Pidfd)
    → ((seen : List ℤ) → same_pidfds events (adopt_pidfds events seen) ≡ true)
    → event.pidfd ≡ p
    → same_pidfds (event ∷ events) (adopt_pidfds (event ∷ events) adopted) ≡ true
unfolding adopt_pidfds adopt_reported_pidfd reported_pidfd_number pidfd_eq
adopt_pidfd_same event events adopted missing ih e = ground (arith, ih adopted)
adopt_pidfd_same event events adopted (fd n) ih e = ground (arith, ih adopted, eq_ℤ_iff n n)
adopt_pidfd_same event events adopted (unavailable n) ih e =
    ground (arith, ih adopted, ih (adopted ++ n ∷ []), eq_ℤ_iff n n)

adopt_pidfds-same :
    (events : List FidEvent) (adopted : List ℤ)
    → same_pidfds events (adopt_pidfds events adopted) ≡ true
unfolding adopt_pidfds
adopt_pidfds-same [] adopted = refl
adopt_pidfds-same (event ∷ events) adopted =
    adopt_pidfd_same event events adopted event.pidfd (adopt_pidfds-same events) refl

-- After adoption no descriptor has two owners; a number has an owner exactly if an event reported
-- it and it is not negative; and no event's pidfd compares different from what it was.
pub adopt_pidfds-owners :
    (events : List FidEvent)
    → Unowned events
    → Distinct (numbers (owned_pidfds (adopt_pidfds events [])))
      × ((n : ℤ)
          → contains n (numbers (owned_pidfds (adopt_pidfds events [])))
            ≡ (not (is_negative n) && contains n (numbers (reported_pidfds events))))
      × (same_pidfds events (adopt_pidfds events []) ≡ true)
adopt_pidfds-owners events h = (
  rw (adopt_pidfds-first_mentions events [] h)
      (first_mentions-Distinct [] (reported_pidfds events)),
  λ n.
      rw (adopt_pidfds-first_mentions events [] h)
        (contains-first_mentions n [] (reported_pidfds events) ∙ (unfold contains in ground arith)),
  adopt_pidfds-same events [],
)
