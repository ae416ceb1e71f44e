-- ===== src/Group/Foreign.antt =====
-- A buffer of a version that the parsers do not read.
use fanotify_fid.Base.{◌-◌, ◌≡◌, refl, ap, ◌∙◌, true, some, List, [], ◌∷◌, map, length}
use fanotify_fid.Bytes.{Bytes, Endian}
use fanotify_fid.Errors.{ok, err, unknown_event_version}
use fanotify_fid.Parse.{ParseReport, unknown_version}
use fanotify_fid.Fid.Walk.{parse_fid_events_into, reject_version}
use fanotify_fid.Fid.Walk.Reuse.{report_walk, parse_fid_events_into-pure_walk}
use fanotify_fid.Fid.Walk.Version.{is_foreign, first_version, pure_walk_foreign}
use fanotify_fid.Fd.Adopt.{adopt_fds}
use fanotify_fid.Fd.Walk.{parse_fd_events_into}
use fanotify_fid.Fd.Agree.{fd_subject, fid_subject, parsers_agree}
use fanotify_fid.Sys.Read
use fanotify_fid.Sys.Read.{
  ReadAnswer, got, ByteVec, contents, write_front, read_into, reserve_default, finish_read,
}
use fanotify_fid.Sys.Retry.{take-write_front}
use fanotify_fid.Group.Stateless.{
  adopt_fd_batch, after_read, reject_batch, rejecting, read_fd_events_reported, read_fd_events,
}
use fanotify_fid.Group.Readers.{
  FdEventReader, clear_reader, finish_reader, read_cleared, fill_fd_events, fd_read_reported,
  handed_out, drop_report, fd_read,
}
use fanotify_fid.Group.Same.{observe, truncate_all}

map-nil {ℓ κ} : {A : Type ℓ} {B : Type κ} (f : A → B) (xs : List A) → map f xs ≡ [] → xs ≡ []
map-nil f [] h = refl
map-nil f (x ∷ xs) h = absurd (cc)

module _ (en : Endian) (bytes : Bytes) (foreign : is_foreign en bytes ≡ true) where
  abbrev stopped : ParseReport
  stopped = record {
    bytes_consumed = 0;
    bytes_left = length bytes - 0;
    stop = unknown_version (first_version en bytes);
  }

  parse_fid_foreign : parse_fid_events_into en bytes [] ≡ ([], stopped)
  unfolding report_walk
  parse_fid_foreign =
      parse_fid_events_into-pure_walk en bytes []
      ∙ ap (report_walk en bytes) (pure_walk_foreign en bytes foreign)

  parse_fd_foreign : parse_fd_events_into en bytes [] ≡ ([], stopped)
  parse_fd_foreign =
      let same = parsers_agree en bytes [] [] in
      λ i. (
        map-nil fd_subject (parse_fd_events_into en bytes []).0
            (same.1 ∙ ap (λ p. map fid_subject p.0) parse_fid_foreign) i,
        (same.0 ∙ ap (λ p. p.1) parse_fid_foreign) i,
      )

  -- The two plain reads of descriptor events differ on a buffer whose first header has another
  -- version: the stateless one refuses it, with that version, and the reader returns no events and
  -- no error.
  pub fd_reads-foreign :
      (r : FdEventReader) (buf : ByteVec) (answers : List ReadAnswer)
      → (observe (read_fd_events en buf (got bytes ∷ answers))
          ≡ some (err (unknown_event_version (first_version en bytes)), answers))
        × (observe (fd_read en r (got bytes ∷ answers)) ≡ some (ok [], answers))
  unfolding read_fd_events read_fd_events_reported Read.read_events read_into finish_read contents
      after_read rejecting reject_batch reject_version observe fd_read fd_read_reported read_cleared
      clear_reader finish_reader fill_fd_events handed_out drop_report
  fd_reads-foreign r buf answers = (
    rw (take-write_front bytes (reserve_default buf).allocation, parse_fd_foreign)
        (unfold adopt_fd_batch adopt_fds in refl),
    rw (take-write_front bytes r.buf, truncate_all en bytes, parse_fd_foreign)
        (unfold adopt_fd_batch adopt_fds in refl),
  )
