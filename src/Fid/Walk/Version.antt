-- ===== src/Fid/Walk/Version.antt =====
-- When the plain parser refuses a buffer.
use fanotify_fid.Base.{
  ℕ, ◌≡◌, refl, ◌⊎◌, ap, not, Bool, true, false, ◌&&◌, List, [], leb, ◌==◌, if◌then◌else◌, arith,
  again, leave, loop_inv, loop_leave, length, Bool-cases, inl, inr,
}
use fanotify_fid.Bytes.{Bytes, Endian}
use fanotify_fid.Consts.{metadata_size, fanotify_metadata_version}
use fanotify_fid.Errors.{ok, err, unknown_event_version}
use fanotify_fid.Parse.{
  EventStop, end, unknown_version, short_header, bad_event_len, bad_metadata_len,
}
use fanotify_fid.Fid.Event.{FidEvent}
use fanotify_fid.Fid.Records.{read_metadata}
use fanotify_fid.Fid.Walk.{parse_fid_events_into, parse_fid_events, reject_version}
use fanotify_fid.Fid.Walk.Spec.{
  PureState, at_start, verdict, pure_next, pure_round, pure_round_shrinks, pure_walk,
}
use fanotify_fid.Fid.Walk.Reuse.{report_walk, parse_fid_events_into-pure_walk}

abbrev NotVersion : EventStop → Type 0
NotVersion (unknown_version v) = ⊥
NotVersion _ = Unit

module _ (en : Endian) (buf : Bytes) where
  abbrev pub first_version : ℕ
  first_version = (read_metadata en buf 0).vers

  -- The buffer holds a header, and it is of another version.
  abbrev pub is_foreign : Bool
  is_foreign = leb metadata_size (length buf) && not (first_version == fanotify_metadata_version)

  module _ (familiar : is_foreign ≡ false) where
    -- Only the first header's version is looked at.
    abbrev IsChecked : PureState → Type 0
    IsChecked s = (s.version_checked ≡ true) ⊎ (s.offset ≡ 0)

    pure_round-IsChecked :
        (s s' : PureState) → IsChecked s → pure_round en buf s ≡ again s' → IsChecked s'
    unfolding pure_round verdict pure_next
    pure_round-IsChecked s s' c e = ground arith

    first_round-NotVersion :
        (s : PureState) (v : ℕ) (events : List FidEvent) (offset : ℕ)
        → s.offset ≡ 0
        → pure_round en buf s ≡ leave (events, offset, unknown_version v)
        → ⊥
    unfolding pure_round verdict pure_next
    first_round-NotVersion s v events offset z e =
        ground (arith, ap (λ o. (read_metadata en buf o).vers) z)

    pure_round-NotVersion :
        (s : PureState) (r : List FidEvent × ℕ × EventStop)
        → IsChecked s
        → pure_round en buf s ≡ leave r
        → NotVersion r.2
    unfolding pure_round verdict pure_next
    pure_round-NotVersion s (events, offset, unknown_version v) (inl c) e = ground arith
    pure_round-NotVersion s (events, offset, unknown_version v) (inr z) e =
        first_round-NotVersion s v events offset z e
    pure_round-NotVersion s (events, offset, end) c e = tt
    pure_round-NotVersion s (events, offset, short_header) c e = tt
    pure_round-NotVersion s (events, offset, bad_event_len n) c e = tt
    pure_round-NotVersion s (events, offset, bad_metadata_len) c e = tt

    pure_walk-NotVersion : NotVersion (pure_walk en buf at_start).2
    unfolding pure_walk
    pure_walk-NotVersion =
        loop_inv _ _ (pure_round_shrinks en buf) {P = IsChecked} {Q = λ r. NotVersion r.2}
          pure_round-IsChecked pure_round-NotVersion at_start (inr refl)

  pub pure_walk_foreign :
      is_foreign ≡ true → pure_walk en buf at_start ≡ ([], 0, unknown_version first_version)
  unfolding pure_walk
  pure_walk_foreign f = loop_leave _ (pure_round en buf) (pure_round_shrinks en buf) stop
    where
      stop : pure_round en buf at_start ≡ leave ([], 0, unknown_version first_version)
      stop = unfold pure_round verdict pure_next in ground arith

  accept :
      (r : List FidEvent × ℕ × EventStop)
      → NotVersion r.2
      → reject_version (report_walk en buf r) ≡ ok (report_walk en buf r).0
  unfolding reject_version report_walk
  accept (events, offset, unknown_version v) n = absurd n
  accept (events, offset, end) n = refl
  accept (events, offset, short_header) n = refl
  accept (events, offset, bad_event_len k) n = refl
  accept (events, offset, bad_metadata_len) n = refl

  -- The plain parser refuses a buffer exactly when it holds a first header whose version is not 3,
  -- with that version in the error; it returns the events of the reported walk on any other
  -- buffer, malformed ones included.
  pub parse_fid_events-version : parse_fid_events en buf ≡ (
      if is_foreign
      then err (unknown_event_version first_version)
      else ok (parse_fid_events_into en buf []).0)
  unfolding parse_fid_events
  parse_fid_events-version = elim (Bool-cases is_foreign) [
    | inl f ↦
        rw (parse_fid_events_into-pure_walk en buf [], pure_walk_foreign f, f)
          (unfold reject_version report_walk in refl)
    | inr f ↦
        rw (f, parse_fid_events_into-pure_walk en buf [])
          (accept (pure_walk en buf at_start) (pure_walk-NotVersion f))
  ]
