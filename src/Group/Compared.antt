-- ===== src/Group/Compared.antt =====
-- What a read returns, beside what the pure parser makes of the same bytes.
use fanotify_fid.Base.{ℤ, eq_ℤ_iff, ◌≡◌, refl, ap, ◌∙◌, true, some, List, [], ◌∷◌, arith}
use fanotify_fid.Bytes.{Bytes, Endian}
use fanotify_fid.Errors.{Result, ok, err}
use fanotify_fid.Parse.{
  EventStop, end, short_header, bad_event_len, bad_metadata_len, unknown_version, ParseReport,
}
use fanotify_fid.Fid.Event.{FidEvent, Pidfd, missing, fd, unavailable, pidfd_eq}
use fanotify_fid.Fid.Adopt.{adopt_pidfds, adopt_reported_pidfd, reported_pidfd_number}
use fanotify_fid.Fid.Compare.{event_eq, list_eq}
use fanotify_fid.Fid.Compare.Reported.{event_eq-reported}
use fanotify_fid.Fid.Walk.{parse_fid_events_into, parse_fid_events, reject_version}
use fanotify_fid.Sys.Read
use fanotify_fid.Sys.Read.{
  ReadAnswer, got, ByteVec, contents, write_front, read_into, reserve_default, finish_read,
}
use fanotify_fid.Sys.Retry.{take-write_front}
use fanotify_fid.Group.EarlyReturn.{parse_batch_lem}
use fanotify_fid.Group.Same.{observe}
use fanotify_fid.Group.Stateless.{
  adopt_batch, after_read, reject_batch, rejecting, read_events_reported, read_events,
}

-- The events of a result, adopted.
unfoldable pub adopted : Result (List FidEvent) → Result (List FidEvent)
adopted (ok events) = ok (adopt_pidfds events [])
adopted (err e) = err e

-- Do two results hold events that compare as equal, one by one, or the same error?
unfoldable pub CompareEqual : Result (List FidEvent) → Result (List FidEvent) → Type 0
CompareEqual (ok es) (ok fs) = list_eq event_eq es fs ≡ true
CompareEqual (err e) (err f) = e ≡ f
CompareEqual _ _ = ⊥

same_but_pidfd :
    (e : FidEvent) (p : Pidfd)
    → pidfd_eq e.pidfd p ≡ true
    → event_eq e (record e { pidfd = p }) ≡ true
same_but_pidfd e p h = (event_eq-reported e (record e { pidfd = p })).1 (refl, h, refl)

pidfd_eq_refl : (p : Pidfd) → pidfd_eq p p ≡ true
unfolding pidfd_eq
pidfd_eq_refl missing = refl
pidfd_eq_refl (fd n) = (eq_ℤ_iff n n).1 refl
pidfd_eq_refl (unavailable n) = (eq_ℤ_iff n n).1 refl

event_eq_refl : (e : FidEvent) → event_eq e e ≡ true
event_eq_refl e = same_but_pidfd e e.pidfd (pidfd_eq_refl e.pidfd)

unavailable-adopt_reported_pidfd :
    (n : ℤ) (seen : List ℤ) → pidfd_eq (unavailable n) (adopt_reported_pidfd n seen).0 ≡ true
unfolding pidfd_eq adopt_reported_pidfd
unavailable-adopt_reported_pidfd n seen = ground (arith, (eq_ℤ_iff n n).1 refl)

event_eq-unavailable :
    (e : FidEvent) (n : ℤ) (p : Pidfd)
    → e.pidfd ≡ unavailable n
    → pidfd_eq (unavailable n) p ≡ true
    → event_eq e (record e { pidfd = p }) ≡ true
event_eq-unavailable e n p h q = same_but_pidfd e p (ap (λ x. pidfd_eq x p) h ∙ q)

adopt_first :
    (e : FidEvent) (es : List FidEvent) (seen : List ℤ) (p : Pidfd)
    → ((later : List ℤ) → list_eq event_eq es (adopt_pidfds es later) ≡ true)
    → e.pidfd ≡ p
    → list_eq event_eq (e ∷ es) (adopt_pidfds (e ∷ es) seen) ≡ true
unfolding adopt_pidfds reported_pidfd_number list_eq
adopt_first e es seen missing ih h = rw h (ground (arith, event_eq_refl e, ih seen))
adopt_first e es seen (fd n) ih h = rw h (ground (arith, event_eq_refl e, ih seen))
adopt_first e es seen (unavailable n) ih h = rw h (
    ground (
      arith,
      event_eq-unavailable e n (adopt_reported_pidfd n seen).0 h
          (unavailable-adopt_reported_pidfd n seen),
      ih (adopt_reported_pidfd n seen).1,
    ))

list_eq-adopt_pidfds :
    (es : List FidEvent) (seen : List ℤ) → list_eq event_eq es (adopt_pidfds es seen) ≡ true
unfolding adopt_pidfds list_eq
list_eq-adopt_pidfds [] seen = refl
list_eq-adopt_pidfds (e ∷ es) seen = adopt_first e es seen e.pidfd (list_eq-adopt_pidfds es) refl

CompareEqual-adopted : (r : Result (List FidEvent)) → CompareEqual r (adopted r)
unfolding CompareEqual adopted
CompareEqual-adopted (ok es) = list_eq-adopt_pidfds es []
CompareEqual-adopted (err e) = refl

reject_version-adopt_batch :
    (batch : List FidEvent × ParseReport) (stop : EventStop)
    → batch.1.stop ≡ stop
    → reject_version (adopt_batch batch) ≡ adopted (reject_version batch)
unfolding reject_version adopt_batch adopted
reject_version-adopt_batch batch end h = rw h refl
reject_version-adopt_batch batch short_header h = rw h refl
reject_version-adopt_batch batch (bad_event_len n) h = rw h refl
reject_version-adopt_batch batch bad_metadata_len h = rw h refl
reject_version-adopt_batch batch (unknown_version v) h = rw h refl

module _ (en : Endian) where
  -- A read returns what the pure parser returns on the bytes that the kernel wrote, with the
  -- pidfds adopted: the same error, or events that compare as equal one by one.
  pub read_events-parse_fid_events :
      (bytes : Bytes) (buf : ByteVec) (answers : List ReadAnswer)
      → (observe (read_events en buf (got bytes ∷ answers))
          ≡ some (adopted (parse_fid_events en bytes), answers))
        × CompareEqual (parse_fid_events en bytes) (adopted (parse_fid_events en bytes))
  unfolding read_events read_events_reported Read.read_events read_into finish_read contents
      after_read rejecting reject_batch observe parse_fid_events
  read_events-parse_fid_events bytes buf answers = (
    rw (take-write_front bytes (reserve_default buf).allocation, parse_batch_lem en bytes)
        (ap (λ r. some (r, answers))
          (reject_version-adopt_batch (parse_fid_events_into en bytes []) _ refl)),
    CompareEqual-adopted (parse_fid_events en bytes),
  )
