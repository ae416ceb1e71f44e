-- ===== src/Group/Readers.antt =====
-- src/group.rs: `EventReader` and `FdEventReader`, which own their buffer and their events. What a
-- read hands out is the reader's `events` after it.
use fanotify_fid.Base.{
  ℕ, ◌+◌, ◌-◌, ◌/◌, ◌==◌, Option, none, some, List, [], if◌then◌else◌, take, replicate, pos,
}
use fanotify_fid.Bytes.{Bytes, Endian}
use fanotify_fid.Consts.{metadata_size}
use fanotify_fid.Errors.{Result, ok, err}
use fanotify_fid.Parse.{ParseReport}
use fanotify_fid.Fid.Event.{FidEvent}
use fanotify_fid.Fid.Walk.{parse_fid_events_into}
use fanotify_fid.Fd.Event.{FdEvent, new}
use fanotify_fid.Fd.Walk.{parse_fd_events_into}
use fanotify_fid.Sys.Read.{ReadAnswer, read_into, default_buf_bytes}
use fanotify_fid.Group.Stateless.{Outcome, nothing_read, adopt_batch, adopt_fd_batch, rejecting}

-- A reader of either format, with its events.
pub record Reader {ℓ} (E : Type ℓ) : Type ℓ where
  pub buf : Bytes
  pub bytes_read : ℕ
  pub events : List E

abbrev pub EventReader : Type 0
EventReader = Reader FidEvent

abbrev pub FdEventReader : Type 0
FdEventReader = Reader FdEvent

unfoldable pub buf_bytes : ℕ → ℕ
buf_bytes capacity = if capacity == 0 then default_buf_bytes else capacity

unfoldable pub new_event_reader : ℕ → EventReader
new_event_reader capacity = record {
  buf = replicate (buf_bytes capacity) 0;
  bytes_read = 0;
  events = [];
}

-- `bytes.div_ceil(METADATA_SIZE)`
unfoldable pub most_events : ℕ → ℕ
most_events bytes = (bytes + (metadata_size - 1)) / metadata_size

unfoldable pub new_fd_event_reader : ℕ → FdEventReader
new_fd_event_reader capacity = record {
  buf = replicate (buf_bytes capacity) 0;
  bytes_read = 0;
  events = replicate (most_events (buf_bytes capacity)) (new 0 none (pos 0));
}

-- What the last read produced is dropped before the next one.
unfoldable pub clear_reader {ℓ} : {E : Type ℓ} → Reader E → Reader E
clear_reader r = record { buf = r.buf; bytes_read = 0; events = [] }

unfoldable pub raw_bytes {ℓ} : {E : Type ℓ} → Reader E → Bytes
raw_bytes r = take r.bytes_read r.buf

module _ {ℓ} {E : Type ℓ} (fill : List E → ℕ → Bytes → List E × ParseReport) where
  -- `read_into(…)?` with its buffer, and what the events and the report become.
  unfoldable pub finish_reader :
      List E → Option (Result ℕ × Bytes × List ReadAnswer) → Outcome ParseReport (Reader E)
  finish_reader events none = none
  finish_reader events (some (err e, buf, answers)) =
      some (err e, record { buf = buf; bytes_read = 0; events = events }, answers)
  finish_reader events (some (ok n, buf, answers)) =
      let filled = fill events n buf in
      some (ok filled.1, record { buf = buf; bytes_read = n; events = filled.0 }, answers)

  unfoldable pub read_cleared : Reader E → List ReadAnswer → Outcome ParseReport (Reader E)
  read_cleared r answers = finish_reader r.events (read_into r.buf answers)

-- `events.truncate(report.bytes_consumed / METADATA_SIZE)`
unfoldable pub truncate_fd_batch : List FdEvent × ParseReport → List FdEvent × ParseReport
truncate_fd_batch (events, report) = (take (report.bytes_consumed / metadata_size) events, report)

module _ (en : Endian) where
  unfoldable pub fill_events : List FidEvent → ℕ → Bytes → List FidEvent × ParseReport
  fill_events events n buf =
      if n == 0
      then (events, nothing_read)
      else adopt_batch (parse_fid_events_into en (take n buf) events)

  unfoldable pub fill_fd_events : List FdEvent → ℕ → Bytes → List FdEvent × ParseReport
  fill_fd_events events n buf =
      adopt_fd_batch (truncate_fd_batch (parse_fd_events_into en (take n buf) events))

  -- `EventReader::read_reported` and `FdEventReader::read_reported`
  unfoldable pub read_reported : EventReader → List ReadAnswer → Outcome ParseReport EventReader
  read_reported r answers = read_cleared fill_events (clear_reader r) answers

  unfoldable pub fd_read_reported :
      FdEventReader → List ReadAnswer → Outcome ParseReport FdEventReader
  fd_read_reported r answers = read_cleared fill_fd_events (clear_reader r) answers

-- What a read hands out: the events, with its report.
unfoldable pub handed_out {ℓ} :
    {E : Type ℓ} → Outcome ParseReport (Reader E) → Outcome (List E × ParseReport) (Reader E)
handed_out none = none
handed_out (some (err e, r, answers)) = some (err e, r, answers)
handed_out (some (ok report, r, answers)) = some (ok (r.events, report), r, answers)

-- `let (events, _) = self.read_reported()?; Ok(events)`
unfoldable pub drop_report {ℓ κ} :
    {E : Type ℓ} {B : Type κ} → Outcome (E × ParseReport) B → Outcome E B
drop_report none = none
drop_report (some (err e, r, answers)) = some (err e, r, answers)
drop_report (some (ok batch, r, answers)) = some (ok batch.0, r, answers)

module _ (en : Endian) where
  -- `EventReader::read` refuses a version that the parser does not read.
  unfoldable pub read : EventReader → List ReadAnswer → Outcome (List FidEvent) EventReader
  read r answers = rejecting (handed_out (read_reported en r answers))

  -- `FdEventReader::read` drops the report.
  unfoldable pub fd_read : FdEventReader → List ReadAnswer → Outcome (List FdEvent) FdEventReader
  fd_read r answers = drop_report (handed_out (fd_read_reported en r answers))
