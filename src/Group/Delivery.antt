-- ===== src/Group/Delivery.antt =====
-- From the kernel's layout to the caller of a read, and what the kernel's read(2) does with the room
-- that it is given.
use fanotify_fid.Base.{
  ℕ, ◌-◌, ◌≡◌, refl, leb, if◌then◌else◌, sym, ap, ◌∙◌, some, List, [], ◌∷◌, ◌++◌, map, All,
  replicate, length, arith,
}
use mathlib.Core.List.{append-nil}
use fanotify_fid.Bytes.{Endian}
use fanotify_fid.Errors.{Result, ok, err, read}
use fanotify_fid.Errors.Errno
use fanotify_fid.Parse.{end}
use fanotify_fid.Fid.Adopt.{adopt_pidfds}
use fanotify_fid.Fid.Walk.{parse_fid_events_into, reject_version}
use fanotify_fid.Fid.Wire.Event.{Notice, meaning, IsNotice, event_len}
use fanotify_fid.Fid.Event.{FidEvent}
use fanotify_fid.Fid.Wire.RoundTrip.{wire_events, parse-wire_events}
use fanotify_fid.Sys.Read
use fanotify_fid.Sys.Read.{
  ReadAnswer, got, failed, ByteVec, contents, write_front, read_into, reserve_default, finish_read,
}
use fanotify_fid.Sys.Retry.{read_into-signals, result_of, is_signal, take-write_front}
use fanotify_fid.Group.Stateless.{
  adopt_batch, parse_batch, after_read, reject_batch, rejecting, read_events_reported, read_events,
}
use fanotify_fid.Group.EarlyReturn.{parse_batch_lem}
use fanotify_fid.Group.Same.{observe}

module _ (en : Endian) where
  parse_batch-wire_events :
      (ns : List Notice)
      → All (IsNotice en) ns
      → parse_batch en (wire_events en ns) ≡ (
        adopt_pidfds (map (meaning en) ns) [],
        record { bytes_consumed = length (wire_events en ns); bytes_left = 0; stop = end },
      )
  parse_batch-wire_events ns valid =
      parse_batch_lem en (wire_events en ns)
      ∙ ap adopt_batch (
          ap (λ buf. parse_fid_events_into en buf []) (sym (append-nil (wire_events en ns)))
          ∙ parse-wire_events en ns [] [] valid (omega arith))
      ∙ (unfold adopt_batch in refl)

  pub read_events-wire_events :
      (n : ℕ) (ns : List Notice) (buf : ByteVec) (answers : List ReadAnswer)
      → All (IsNotice en) ns
      → observe (
          read_events en buf
            (replicate n (failed Errno.eintr) ++ got (wire_events en ns) ∷ answers))
        ≡ some (ok (adopt_pidfds (map (meaning en) ns) []), answers)
  unfolding read_events read_events_reported Read.read_events is_signal
  read_events-wire_events n ns buf answers valid =
      rw
        (read_into-signals n (reserve_default buf).allocation (got (wire_events en ns)) answers
          refl)
        (unfold result_of finish_read after_read contents rejecting reject_batch observe in
          rw (take-write_front (wire_events en ns) (reserve_default buf).allocation)
            (rw (parse_batch-wire_events ns valid) (unfold reject_version in refl)))

  -- What fanotify's read(2) writes into `room` bytes: of the events that wait, those in front that
  -- fit as a whole.
  abbrev pub fitting : ℕ → List Notice → List Notice
  fitting room [] = []
  fitting room (n ∷ ns) =
      let rest = fitting (room - event_len en n) ns in
      if leb (event_len en n) room then n ∷ rest else []

  -- Its error when it writes none: nothing waits, or there is no room for the first event.
  abbrev pub refusal : List Notice → ℕ
  refusal [] = Errno.eagain
  refusal (n ∷ ns) = Errno.einval

  abbrev pub written : ℕ → List Notice → ReadAnswer
  written e [] = failed e
  written e (n ∷ ns) = got (wire_events en (n ∷ ns))

  abbrev pub kernel_read : ℕ → List Notice → ReadAnswer
  kernel_read room ns = written (refusal ns) (fitting room ns)

  -- What the caller is to get.
  abbrev pub handed : ℕ → List Notice → Result (List FidEvent)
  handed e [] = err (read e)
  handed e (n ∷ ns) = ok (adopt_pidfds (map (meaning en) (n ∷ ns)) [])
