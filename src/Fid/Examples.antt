-- ===== src/Fid/Examples.antt =====
-- The theorems on src/fid.rs at concrete buffers, and runs of the parser.
use fanotify_fid.Base.{
  ◌^◌, false, map, ◌+◌, ◌*◌, ◌≤◌, ◌≡◌, ◌↔◌, refl, ℤ, pos, negsuc, true, List, [], ◌∷◌, ◌++◌, length,
  All, Option, none, some, arith, if◌then◌else◌, replicate, not, ◌&&◌, is_negative,
}
use fanotify_fid.Bytes.{Bytes, little, big}
use fanotify_fid.Consts.{metadata_size}
use fanotify_fid.Parse.{end, short_header, bad_event_len, is_complete}
use fanotify_fid.Errors.{ok, err, unknown_event_version}
use fanotify_fid.Fid.Event.{FidEvent, new, set_path, fd as owned, unavailable, pidfd_eq}
use fanotify_fid.Paths.{components, is_absolute, split, cons_first, segments, segment, cons_some}
use fanotify_fid.Paths.Names.{absolute}
use fanotify_fid.Fid.Shared.{Shared, drop_pidfd, into_fd}
use fanotify_fid.Fid.Event.{fd}
use fanotify_fid.Owners.{Table, opened as opened_in}
use fanotify_fid.Fid.Wire.Absorb.{absorb, word_at}
use fanotify_fid.Bytes.{to_ne_bytes, le_bytes, from_ne_bytes, le_value}
use fanotify_fid.Fid.Deleted.{
  ends_with, ends_with_deleted_marker, marked, any_marked, carries_deleted_marker, path_is_deleted,
  is_deleted, without_deleted_suffix,
}
use fanotify_fid.Fid.Deleted.Marked.{
  Entry, IsEntry, shown, any_gone, names, without_deleted_suffix-shown,
}
use fanotify_fid.Fid.Compare.{event_eq, path_components}
use fanotify_fid.Fid.Compare.Reported.{reported, event_eq-reported}
use fanotify_fid.Fid.Walk.{parse_fid_events_into, parse_fid_events}
use fanotify_fid.Fid.Walk.Reuse.{parse_fid_events_into-reuse}
use fanotify_fid.Fid.Walk.Report.{parse_fid_events_into-report}
use fanotify_fid.Fid.Walk.Version.{is_foreign, first_version, parse_fid_events-version}
use fanotify_fid.Fid.Walk.Events.{parse_fid_events_into-IsParsed}
use fanotify_fid.Fid.Records.Parsed.{IsParsed}
use fanotify_fid.Owners.{Distinct, numbers, contains}
use fanotify_fid.Fid.Adopt.{
  adopt_pidfds, owned_pidfds, reported_pidfds, same_pidfds, Unowned, adopt_pidfds-owners, as_fd,
  reported_pidfd_number, adopt_reported_pidfd,
}
use fanotify_fid.Fid.Wire
use fanotify_fid.Fid.Wire.{FileHandle, IsInfo}
use fanotify_fid.Fid.Wire.Event.{Notice, IsNotice, meaning}
use fanotify_fid.Fid.Wire.RoundTrip.{wire_events, parse-wire_events}
use fanotify_fid.Fid.Open.{opened}

-- A creation of `ab` by process 42, with its pidfd and a record of an unknown type.
abbrev creation : Notice
creation = record {
  mask = 0x100;
  fd = negsuc 0;
  pid = pos 42;
  infos =
      Wire.dfid_name (pos 7, negsuc 2)
        (record { handle_type = pos 1; handle_bytes = 1 ∷ 2 ∷ 3 ∷ 4 ∷ [] }) (b'a' ∷ b'b' ∷ []) 2
      ∷ Wire.pidfd (pos 5)
      ∷ Wire.other 99 (1 ∷ 2 ∷ [])
      ∷ [];
}

-- An overflow, which names no object.
abbrev overflow : Notice
overflow = record { mask = 0x4000; fd = negsuc 12; pid = pos 0; infos = [] }

abbrev stale : FidEvent
stale = record new { mask = 1; mnt_id = some 3; pidfd = unavailable (pos 8) }

abbrev buffer : Bytes
buffer = wire_events big (creation ∷ overflow ∷ [])

creation-IsNotice : IsNotice big creation
unfolding opened
creation-IsNotice = omega arith

overflow-IsNotice : IsNotice big overflow
overflow-IsNotice = omega arith

parse-wire_events_example : parse_fid_events_into big (buffer ++ 1 ∷ 2 ∷ []) (stale ∷ []) ≡ (
  meaning big creation ∷ meaning big overflow ∷ [],
  record { bytes_consumed = length buffer; bytes_left = 2; stop = short_header },
)
parse-wire_events_example =
    parse-wire_events big (creation ∷ overflow ∷ []) (1 ∷ 2 ∷ []) (stale ∷ [])
      (creation-IsNotice, (overflow-IsNotice, tt)) (omega arith)

parse_fid_events_into-reuse_example :
    parse_fid_events_into little buffer (stale ∷ stale ∷ [])
    ≡ parse_fid_events_into little buffer []
parse_fid_events_into-reuse_example = parse_fid_events_into-reuse little buffer (stale ∷ stale ∷ [])

parse_fid_events_into-report_example :
    let (parsed, report) = parse_fid_events_into big buffer (stale ∷ []) in
    (report.bytes_consumed + report.bytes_left ≡ length buffer)
    × (metadata_size * length parsed ≤ report.bytes_consumed)
    × ((is_complete report ≡ true) ↔ (report.bytes_left ≡ 0))
parse_fid_events_into-report_example = parse_fid_events_into-report big buffer (stale ∷ [])

-- The parser runs.
buffer_run :
    (parse_fid_events_into big buffer []).1
    ≡ record { bytes_consumed = 90; bytes_left = 0; stop = end }
unfolding opened
buffer_run = refl

parse_fid_events-version_example : parse_fid_events big buffer ≡ (
    if is_foreign big buffer
    then err (unknown_event_version (first_version big buffer))
    else ok (parse_fid_events_into big buffer []).0)
parse_fid_events-version_example = parse_fid_events-version big buffer

-- The same bytes in the other byte order are not refused, since the version is one byte; with
-- another version they are.
swapped_run : (parse_fid_events_into little buffer []).1.stop ≡ bad_event_len 0x42000000
unfolding opened
swapped_run = refl

foreign_run : parse_fid_events little (replicate 24 9) ≡ err (unknown_event_version 9)
unfolding opened
foreign_run = refl

parse_fid_events_into-IsParsed_example :
    All IsParsed (parse_fid_events_into big buffer (stale ∷ [])).0
parse_fid_events_into-IsParsed_example = parse_fid_events_into-IsParsed big buffer (stale ∷ [])

-- Two events that report one pidfd, and one whose process was gone.
abbrev reporting : List FidEvent
reporting =
    record new { pidfd = unavailable (pos 5) }
    ∷ record new { pidfd = unavailable (negsuc 0) }
    ∷ record new { pidfd = unavailable (pos 5) }
    ∷ []

reporting-Unowned : Unowned reporting
reporting-Unowned = (tt, (tt, (tt, tt)))

adopt_pidfds-owners_example :
    Distinct (numbers (owned_pidfds (adopt_pidfds reporting [])))
    × ((n : ℤ)
        → contains n (numbers (owned_pidfds (adopt_pidfds reporting [])))
          ≡ (not (is_negative n) && contains n (numbers (reported_pidfds reporting))))
    × (same_pidfds reporting (adopt_pidfds reporting []) ≡ true)
adopt_pidfds-owners_example = adopt_pidfds-owners reporting reporting-Unowned

adopt_pidfds_run : owned_pidfds (adopt_pidfds reporting []) ≡ some (pos 5) ∷ none ∷ none ∷ []
unfolding adopt_pidfds reported_pidfd_number adopt_reported_pidfd contains as_fd
adopt_pidfds_run = refl

-- "/srv//x"
abbrev at_srv : FidEvent
at_srv = record new { path = some (b'/' ∷ b's' ∷ b'r' ∷ b'v' ∷ b'/' ∷ b'/' ∷ b'x' ∷ []) }

at_srv_there : is_deleted at_srv ≡ false
unfolding is_deleted path_is_deleted carries_deleted_marker components is_absolute split cons_first
    segments segment cons_some any_marked marked ends_with_deleted_marker ends_with
at_srv_there = refl

-- "/a (deleted)/b"
abbrev gone_directory : List Entry
gone_directory =
    record { name = b'a' ∷ []; gone = true } ∷ record { name = b'b' ∷ []; gone = false } ∷ []

gone_directory-IsEntry : All IsEntry gone_directory
unfolding segment ends_with_deleted_marker ends_with
gone_directory-IsEntry = (
  record {
    is_name = record { no_separator = refl; one_component = refl };
    unmarked = λ there. absurd (cc);
  },
  (
    record {
      is_name = record { no_separator = refl; one_component = refl };
      unmarked = λ there. refl;
    },
    tt,
  ),
)

without_deleted_suffix-shown_example :
    let found = set_path new (absolute (map shown gone_directory)) in
    (is_deleted found ≡ any_gone gone_directory)
    × (without_deleted_suffix found ≡ some (absolute (names gone_directory)))
without_deleted_suffix-shown_example =
    without_deleted_suffix-shown new gone_directory gone_directory-IsEntry

-- The same process, once owned, and the same path, written in two ways.
abbrev one_path : FidEvent
one_path = record at_srv { pidfd = owned (pos 5) }

abbrev other_path : FidEvent
other_path = record new {
  pidfd = unavailable (pos 5);
  path = some (b'/' ∷ b's' ∷ b'r' ∷ b'v' ∷ b'/' ∷ b'x' ∷ b'/' ∷ []);
}

event_eq-reported_example : (event_eq one_path other_path ≡ true) ↔ (
    (reported one_path ≡ reported other_path)
    × (pidfd_eq one_path.pidfd other_path.pidfd ≡ true)
    × (path_components one_path.path ≡ path_components other_path.path))
event_eq-reported_example = event_eq-reported one_path other_path

equal_paths : event_eq one_path other_path ≡ true
unfolding path_components components is_absolute split cons_first segments segment cons_some
    pidfd_eq
equal_paths = event_eq-reported_example.1 (refl, refl, refl)

-- A pidfd is cloned, one of the two is taken out as a duplicate, and the other is dropped, in a
-- process that holds nothing else: the duplicate is what is left open.
abbrev nothing_open : Table
nothing_open n = false

abbrev duplicate_at : Table → ℤ → Option ℤ
duplicate_at table n = if table (pos 99) then none else some (pos 99)

abbrev drawn : Option ℤ × Shared × Table
drawn =
    into_fd duplicate_at (fd (pos 5)) (record { number = pos 5; holders = 2 })
      (opened_in (pos 5) nothing_open)

abbrev dropped : Shared × Table
dropped = drop_pidfd (fd (pos 5)) drawn.1 drawn.2

-- RANGE and MNT: the parser takes the padding for half of the first word.
mnt_read_early : (absorb little (Wire.mnt 7) new).mnt_id ≡ some (7 * 2 ^ 32)
unfolding absorb word_at to_ne_bytes le_bytes from_ne_bytes le_value
mnt_read_early = refl

range_read_early : (absorb big (Wire.range 7 9) new).access_range ≡ some (0, 7 * 2 ^ 32)
unfolding absorb word_at to_ne_bytes le_bytes from_ne_bytes le_value
range_read_early = refl
