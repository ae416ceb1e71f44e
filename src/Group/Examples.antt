-- ===== src/Group/Examples.antt =====
-- The theorems on src/group.rs at concrete readers and answers.
use fanotify_fid.Base.{
  ◌∙◌, ◌≤◌, ℕ, ℤ, eq_ℤ_iff, ◌||◌, pos, negsuc, ◌-◌, ◌+◌, ◌*◌, ◌^◌, ◌≤◌, ◌<◌, ◌≡◌, ◌⊎◌, refl, true,
  false, none, some, List, [], ◌∷◌, ◌++◌, replicate, arith,
}
use fanotify_fid.Bytes.{Bytes, little, to_ne_bytes, le_bytes}
use fanotify_fid.Errors.{ok, err, unknown_event_version}
use fanotify_fid.Errors.Errno
use fanotify_fid.Parse.{end}
use fanotify_fid.Fid.Event.{FidEvent, fd as owned}
use fanotify_fid.Fid.Adopt.{adopt_pidfds, reported_pidfd_number, adopt_reported_pidfd}
use fanotify_fid.Owners.{contains, Table, opened as opened_one}
use fanotify_fid.Fid.Walk.{parse_fid_events}
use fanotify_fid.Fid.Walk.Version.{first_version}
use fanotify_fid.Fid.Wire
use fanotify_fid.Fid.Wire.Event.{Notice, IsNotice}
use fanotify_fid.Fid.Wire.RoundTrip.{wire_events}
use fanotify_fid.Fid.Open.{opened}
use fanotify_fid.Fd.Event.{new}
use fanotify_fid.Fd.Adopt.{adopt_fds, adopt_reported}
use fanotify_fid.Fd.Walk.{
  parse_fd_events_into, finish_fd_walk, fd_walk, fd_walk_round, fill_fd_event,
}
use fanotify_fid.Bytes.{to_ne_bytes, le_bytes}
use fanotify_fid.Sys.Read.{ReadAnswer, got, failed, ByteVec, read_into, write_front}
use fanotify_fid.Group.Stateless.{
  adopt_batch, adopt_fd_batch, read_events, read_fd_events_reported, read_fd_events,
}
use fanotify_fid.Group.Readers.{
  EventReader, FdEventReader, new_event_reader, new_fd_event_reader, buf_bytes, clear_reader,
  truncate_fd_batch, fill_events, fill_fd_events, finish_reader, read_cleared, read_reported,
  fd_read_reported, handed_out, fd_read,
}
use fanotify_fid.Group.Same.{observe, fd_read_reported-stateless}
use fanotify_fid.Group.History.{Reads, here, then_read, IsReader, OnceEach, event_reader-Reads}
use fanotify_fid.Group.Ledger.{
  close_each, owned as owned_by, Delivery, delivers, installed, unadopted, Lives, made,
  elsewhere_opens, reads,
}
use fanotify_fid.Group.Accounts.{Accounts, owned-new_fd_event_reader, Lives-Accounts}
use fanotify_fid.Group.Foreign.{fd_reads-foreign}
use fanotify_fid.Group.Compared.{adopted, CompareEqual, read_events-parse_fid_events}
use fanotify_fid.Sys.Calls.{Returned}
use fanotify_fid.Group.Wait.{
  Duration, wait_readable, after_poll, wait_readable-after_poll, nanoseconds,
}

-- A creation by process 42, with its pidfd.
abbrev creation : Notice
creation = record { mask = 0x100; fd = negsuc 0; pid = pos 42; infos = Wire.pidfd (pos 5) ∷ [] }

abbrev small : ByteVec
small = record { allocation = 0 ∷ 0 ∷ []; len = 1 }

-- Room for one event of 32 bytes and not for two.
abbrev narrow : ByteVec
narrow = record { allocation = replicate 40 0; len = 0 }

read_events-parse_fid_events_example :
    (observe (read_events little small (got (wire_events little (creation ∷ [])) ∷ []))
      ≡ some (adopted (parse_fid_events little (wire_events little (creation ∷ []))), []))
    × CompareEqual
        (parse_fid_events little (wire_events little (creation ∷ [])))
        (adopted (parse_fid_events little (wire_events little (creation ∷ []))))
read_events-parse_fid_events_example =
    read_events-parse_fid_events little (wire_events little (creation ∷ [])) small []

abbrev answers : List ReadAnswer
answers = failed Errno.eintr ∷ got (wire_events little (creation ∷ [])) ∷ []

abbrev reader : EventReader
reader = record { buf = replicate 64 7; bytes_read = 9; events = [] }

abbrev fd_reader : FdEventReader
fd_reader = record {
  buf = replicate 64 7;
  bytes_read = 9;
  events = record { mask = 1; pid = pos 1; fd = some (pos 4); fd_field = pos 4 } ∷ [];
}

fd_read_reported-stateless_example :
    observe (handed_out (fd_read_reported little fd_reader answers))
    ≡ observe (read_fd_events_reported little small answers)
fd_read_reported-stateless_example = fd_read_reported-stateless little fd_reader small answers

-- The queue has nothing.
abbrev empty_queue : List ReadAnswer
empty_queue = failed Errno.eintr ∷ failed Errno.eagain ∷ []

abbrev creation_event : FidEvent
creation_event = record {
  mask = 0x100;
  pid = pos 42;
  fsid = none;
  dfid_name_handle = none;
  dfid_name_name = none;
  self_handle = none;
  pidfd = owned (pos 5);
  fd_error = none;
  fs_error = none;
  access_range = none;
  mnt_id = none;
  rename_source = none;
  rename_target = none;
  unknown_info_records = [];
  path = none;
}

-- The kernel wrote the creation into the reader's buffer.
abbrev filled : EventReader
filled = record {
  buf = wire_events little (creation ∷ []) ++ replicate 32 0;
  bytes_read = 32;
  events = creation_event ∷ [];
}

first_read :
    read_reported little (new_event_reader 64) answers
    ≡ some (ok (record { bytes_consumed = 32; bytes_left = 0; stop = end }), filled, [])
unfolding opened new_event_reader read_reported read_cleared clear_reader finish_reader read_into
    fill_events write_front adopt_batch buf_bytes adopt_pidfds reported_pidfd_number
    adopt_reported_pidfd contains
first_read = refl

event_reader-Reads_example : IsReader OnceEach (buf_bytes 64) filled
unfolding to_ne_bytes le_bytes new_event_reader buf_bytes
event_reader-Reads_example =
    event_reader-Reads little 64 filled
      (then_read answers [] _ here (tt, (omega arith, tt)) first_read)

-- An open of a file, with its descriptor.
abbrev opening : Notice
opening = record { mask = 0x20; fd = pos 5; pid = pos 42; infos = Wire.pidfd (pos 6) ∷ [] }

opening-IsNotice : IsNotice little opening
unfolding opened
opening-IsNotice = omega arith

abbrev fd_answers : List ReadAnswer
fd_answers = got (wire_events little (opening ∷ [])) ∷ []

abbrev fd_filled : FdEventReader
fd_filled = record {
  buf = wire_events little (opening ∷ []) ++ replicate 32 0;
  bytes_read = 32;
  events = record { mask = 0x20; pid = pos 42; fd = some (pos 5); fd_field = pos 5 } ∷ [];
}

first_fd_read :
    fd_read_reported little (new_fd_event_reader 64) fd_answers
    ≡ some (ok (record { bytes_consumed = 32; bytes_left = 0; stop = end }), fd_filled, [])
unfolding opened new_fd_event_reader fd_read_reported read_cleared clear_reader finish_reader
    read_into fill_fd_events write_front adopt_fd_batch buf_bytes contains truncate_fd_batch
    adopt_fds parse_fd_events_into finish_fd_walk fd_walk fd_walk_round adopt_reported fill_fd_event
    new
first_fd_read = refl

fd_steps : Reads (fd_read_reported little) (new_fd_event_reader 64) fd_filled
unfolding to_ne_bytes le_bytes new_fd_event_reader buf_bytes
fd_steps = then_read fd_answers [] _ here (omega arith, tt) first_fd_read

-- Descriptor 3 is the program's, and 5 comes with the event, and its pidfd 6.
abbrev theirs : Table
theirs = opened_one (pos 3) (λ n. false)

abbrev delivery : List Delivery
delivery = delivers (opening ∷ []) ∷ []

fresh :
    (n : ℤ)
    → (installed delivery n || unadopted delivery n) ≡ true
    → close_each (owned_by (new_fd_event_reader 64)) theirs n ≡ false
unfolding installed unadopted contains
fresh n h =
    rw (owned-new_fd_event_reader 64)
      (ground (arith, eq_ℤ_iff (pos 3) n, eq_ℤ_iff (pos 5) n, eq_ℤ_iff (pos 6) n))

apart_pidfds : (n : ℤ) → installed delivery n ≡ true → unadopted delivery n ≡ false
unfolding installed unadopted contains
apart_pidfds n h = ground (arith, eq_ℤ_iff (pos 5) n, eq_ℤ_iff (pos 6) n)

abbrev theirs_then : Table
theirs_then n = unadopted delivery n || theirs n

abbrev all_then : Table
all_then n =
    installed delivery n
    || unadopted delivery n
    || close_each (owned_by (new_fd_event_reader 64)) theirs n

life : Lives little fd_filled theirs_then all_then
life =
    reads delivery [] _ (elsewhere_opens (pos 3) (made 64 refl) refl refl refl)
      ((opening-IsNotice, tt), tt) fresh apart_pidfds first_fd_read (λ n. refl) (λ n. refl)

Lives-Accounts_example :
    Accounts fd_filled theirs_then all_then
    × ((n : ℤ) → close_each (owned_by fd_filled) all_then n ≡ theirs_then n)
Lives-Accounts_example = Lives-Accounts little life

-- The reader is closed, and the pidfd is still open.
pidfd_stays_open : close_each (owned_by fd_filled) all_then (pos 6) ≡ true
unfolding unadopted contains
pidfd_stays_open = Lives-Accounts_example.1 (pos 6) ∙ refl

abbrev foreign : Bytes
foreign = replicate 24 9

fd_reads-foreign_example :
    (observe (read_fd_events little small (got foreign ∷ []))
      ≡ some (err (unknown_event_version (first_version little foreign)), []))
    × (observe (fd_read little fd_reader (got foreign ∷ [])) ≡ some (ok [], []))
fd_reads-foreign_example =
    fd_reads-foreign little foreign (unfold opened in refl) fd_reader small []

-- poll(2) that finds an event after it was called with any time.
abbrev poll_event : ℕ → ℤ → ℕ × Returned
poll_event k t = (k + 1, record { value = pos 1; errno = 0 })

abbrev two_seconds : Duration
two_seconds = record { secs = 2; nanos = 1_500_000 }

wait_readable-after_poll_example :
    (wait_readable poll_event 0 none ≡ after_poll (poll_event 0 (negsuc 0)))
    × (ms : ℕ) × (wait_readable poll_event 0 (some two_seconds)
        ≡ after_poll (poll_event 0 (pos ms)))
    × (ms < 2 ^ 31)
    × (ms * 1_000_000 ≤ nanoseconds two_seconds)
    × ((nanoseconds two_seconds < (ms + 1) * 1_000_000) ⊎ (ms ≡ 2 ^ 31 - 1))
wait_readable-after_poll_example = wait_readable-after_poll poll_event 0 two_seconds
