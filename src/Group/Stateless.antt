-- ===== src/Group/Stateless.antt =====
-- src/group.rs and src/fd.rs: the reads into a buffer of the caller's. A read that still waits has
-- no result; else it gives a result, the buffer and the answers of the kernel that are left.
use fanotify_fid.Base.{Option, none, some, List, [], ◌==◌, if◌then◌else◌, length}
use fanotify_fid.Bytes.{Bytes, Endian}
use fanotify_fid.Errors.{Result, ok, err}
use fanotify_fid.Parse.{end, ParseReport}
use fanotify_fid.Fid.Event.{FidEvent}
use fanotify_fid.Fid.Adopt.{adopt_pidfds}
use fanotify_fid.Fid.Walk.{parse_fid_events_into, reject_version}
use fanotify_fid.Fd.Event.{FdEvent}
use fanotify_fid.Fd.Adopt.{adopt_fds}
use fanotify_fid.Fd.Walk.{parse_fd_events_into}
use fanotify_fid.Sys.Read
use fanotify_fid.Sys.Read.{ReadAnswer, ByteVec, contents}

-- The result of a read, what it was read into, and the answers that are left.
abbrev pub Outcome {ℓ κ} : Type ℓ → Type κ → Type (ℓ ⊔ κ)
Outcome A B = Option (Result A × B × List ReadAnswer)

-- A buffer that holds no byte was read from an empty queue.
unfoldable pub nothing_read : ParseReport
nothing_read = record { bytes_consumed = 0; bytes_left = 0; stop = end }

-- The pidfds of the events of one read are adopted, with a scratch list of its own.
unfoldable pub adopt_batch : List FidEvent × ParseReport → List FidEvent × ParseReport
adopt_batch (events, report) = (adopt_pidfds events [], report)

unfoldable pub parse_batch : Endian → Bytes → List FidEvent × ParseReport
parse_batch en buf =
    if length buf == 0 then ([], nothing_read) else adopt_batch (parse_fid_events_into en buf [])

unfoldable pub adopt_fd_batch : List FdEvent × ParseReport → List FdEvent × ParseReport
adopt_fd_batch (events, report) = (adopt_fds events [], report)

-- `sys::read_events(…)?`, and what is made of the bytes.
unfoldable pub after_read {ℓ} :
    {A : Type ℓ} → (Bytes → A) → Outcome (Unit {0}) ByteVec → Outcome A ByteVec
after_read parse none = none
after_read parse (some (err e, buf, answers)) = some (err e, buf, answers)
after_read parse (some (ok _, buf, answers)) = some (ok (parse (contents buf)), buf, answers)

-- `if let EventStop::UnknownVersion(vers) = report.stop { return Err(…) }`
unfoldable pub reject_batch {ℓ} : {E : Type ℓ} → Result (E × ParseReport) → Result E
reject_batch (err e) = err e
reject_batch (ok batch) = reject_version batch

unfoldable pub rejecting {ℓ κ} :
    {E : Type ℓ} {B : Type κ} → Outcome (E × ParseReport) B → Outcome E B
rejecting none = none
rejecting (some (result, buf, answers)) = some (reject_batch result, buf, answers)

module _ (en : Endian) where
  unfoldable pub read_events_reported :
      ByteVec → List ReadAnswer → Outcome (List FidEvent × ParseReport) ByteVec
  read_events_reported buf answers = after_read (parse_batch en) (Read.read_events buf answers)

  unfoldable pub read_events : ByteVec → List ReadAnswer → Outcome (List FidEvent) ByteVec
  read_events buf answers = rejecting (read_events_reported buf answers)

  unfoldable pub read_fd_events_reported :
      ByteVec → List ReadAnswer → Outcome (List FdEvent × ParseReport) ByteVec
  read_fd_events_reported buf answers =
      after_read (λ bytes. adopt_fd_batch (parse_fd_events_into en bytes []))
        (Read.read_events buf answers)

  unfoldable pub read_fd_events : ByteVec → List ReadAnswer → Outcome (List FdEvent) ByteVec
  read_fd_events buf answers = rejecting (read_fd_events_reported buf answers)
