-- ===== src/Group/Same.antt =====
-- What a reader hands out is what the stateless read of the same answers returns.
use fanotify_fid.Base.{
  ℕ, ◌*◌, ◌/◌, ◌≤◌, ◌≡◌, refl, sym, ap, ◌∙◌, inl, inr, Bool-cases, Option, none, some, List, [],
  ◌∷◌, map, ◌==◌, length, take_all, arith,
}
use fanotify_fid.Bytes.{Bytes, Endian}
use fanotify_fid.Consts.{metadata_size}
use fanotify_fid.Errors.{Result, ok}
use fanotify_fid.Errors.Errno
use fanotify_fid.Parse.{ParseReport}
use fanotify_fid.Fid.Walk.{parse_fid_events_into}
use fanotify_fid.Fid.Walk.Report.{parse_fid_events_into-report}
use fanotify_fid.Fd.Walk.{parse_fd_events_into}
use fanotify_fid.Fd.Agree.{fd_subject, fid_subject, parsers_agree}
use fanotify_fid.Sys.Read
use fanotify_fid.Sys.Read.{
  ReadAnswer, got, failed, ByteVec, contents, write_front, read_into, reserve_default, finish_read,
}
use fanotify_fid.Sys.Retry.{take-write_front}
use fanotify_fid.Group.Stateless.{
  Outcome, adopt_fd_batch, parse_batch, after_read, read_events_reported, read_fd_events_reported,
}
use fanotify_fid.Group.Readers.{
  EventReader, FdEventReader, clear_reader, finish_reader, read_cleared, fill_events,
  truncate_fd_batch, fill_fd_events, read_reported, fd_read_reported, handed_out,
}

-- A read without the place that it was read into.
unfoldable pub observe {ℓ κ} :
    {A : Type ℓ} {B : Type κ} → Outcome A B → Option (Result A × List ReadAnswer)
observe none = none
observe (some (result, place, answers)) = some (result, answers)

module _ {ℓ} {E : Type ℓ} (fill : List E → ℕ → Bytes → List E × ParseReport)
    (parse : Bytes → List E × ParseReport)
    (agree : (bytes buf : Bytes)
      → fill [] (length bytes) (write_front bytes buf) ≡ parse bytes) where
  same_read :
      (answers : List ReadAnswer) (buf allocation : Bytes)
      → observe (handed_out (finish_reader fill [] (read_into buf answers)))
        ≡ observe (after_read parse (finish_read (read_into allocation answers)))
  unfolding observe handed_out finish_reader read_into after_read finish_read contents
  same_read [] buf allocation = refl
  same_read (got bytes ∷ answers) buf allocation =
      rw (take-write_front bytes allocation) (ap (λ p. some (ok p, answers)) (agree bytes buf))
  same_read (failed e ∷ answers) buf allocation = elim (Bool-cases (e == Errno.eintr)) [
    | inl signal ↦ rw signal (same_read answers buf allocation)
    | inr refused ↦ rw refused refl
  ]

length-map {ℓ κ} :
    {A : Type ℓ} {B : Type κ} (f : A → B) (xs : List A) → length (map f xs) ≡ length xs
length-map f [] = refl
length-map f (x ∷ xs) = omega (arith, length-map f xs)

module _ (en : Endian) where
  fill_events-agree :
      (bytes buf : Bytes)
      → fill_events en [] (length bytes) (write_front bytes buf) ≡ parse_batch en bytes
  unfolding fill_events parse_batch
  fill_events-agree bytes buf = rw (take-write_front bytes buf) refl

  -- Truncating to as many events as headers fit in what was consumed drops none.
  pub truncate_all :
      (bytes : Bytes)
      → truncate_fd_batch (parse_fd_events_into en bytes []) ≡ parse_fd_events_into en bytes []
  unfolding truncate_fd_batch
  truncate_all bytes =
      let fd = parse_fd_events_into en bytes [] in
      let fid = parse_fid_events_into en bytes [] in
      let same = parsers_agree en bytes [] [] in
      let same_count : length fd.0 ≡ length fid.0 =
        sym (length-map fd_subject fd.0) ∙ ap length same.1 ∙ length-map fid_subject fid.0 in
      let bound : metadata_size * length fd.0 ≤ fd.1.bytes_consumed = omega (
        arith,
        same_count,
        ap (λ (p : ParseReport). p.bytes_consumed) same.0,
        (parse_fid_events_into-report en bytes []).1,
      ) in
      ap (λ es. (es, fd.1))
        (take_all (fd.1.bytes_consumed / metadata_size) fd.0 (omega (arith, bound)))

  fill_fd_events-agree :
      (bytes buf : Bytes)
      → fill_fd_events en [] (length bytes) (write_front bytes buf)
        ≡ adopt_fd_batch (parse_fd_events_into en bytes [])
  unfolding fill_fd_events
  fill_fd_events-agree bytes buf =
      rw (take-write_front bytes buf) (ap adopt_fd_batch (truncate_all bytes))

  -- What an `EventReader` hands out depends on the kernel's answers alone: it is what the stateless
  -- read gives on them, whatever the reader held before and whatever buffer the other has.
  pub read_reported-stateless :
      (r : EventReader) (buf : ByteVec) (answers : List ReadAnswer)
      → observe (handed_out (read_reported en r answers))
        ≡ observe (read_events_reported en buf answers)
  unfolding read_reported read_cleared clear_reader read_events_reported Read.read_events
  read_reported-stateless r buf answers =
      same_read (fill_events en) (parse_batch en) fill_events-agree answers r.buf
        (reserve_default buf).allocation

  -- What an `FdEventReader` hands out depends on the kernel's answers alone: it is what the
  -- stateless read gives on them, so that truncating the events to a quotient of the bytes
  -- consumed drops none of them.
  pub fd_read_reported-stateless :
      (r : FdEventReader) (buf : ByteVec) (answers : List ReadAnswer)
      → observe (handed_out (fd_read_reported en r answers))
        ≡ observe (read_fd_events_reported en buf answers)
  unfolding fd_read_reported read_cleared clear_reader read_fd_events_reported Read.read_events
  fd_read_reported-stateless r buf answers =
      same_read (fill_fd_events en) (λ bytes. adopt_fd_batch (parse_fd_events_into en bytes []))
        fill_fd_events-agree answers r.buf (reserve_default buf).allocation
