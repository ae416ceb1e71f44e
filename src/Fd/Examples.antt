-- ===== src/Fd/Examples.antt =====
-- The theorems on src/fd.rs at concrete buffers.
use fanotify_fid.Base.{
  ◌≡◌, refl, pos, negsuc, List, [], ◌∷◌, ◌++◌, map, All, length, arith, none, some,
}
use fanotify_fid.Bytes.{Bytes, little}
use fanotify_fid.Owners.{contains}
use fanotify_fid.Fid.Walk.{parse_fid_events_into}
use fanotify_fid.Fd.Event.{FdEvent}
use fanotify_fid.Fd.Walk.{parse_fd_events_into}
use fanotify_fid.Fd.Reuse.{parse_fd_events_into-reuse}
use fanotify_fid.Fd.Agree.{fd_subject, fid_subject, parsers_agree}
use fanotify_fid.Parse.{short_header}
use fanotify_fid.Fid.Open.{opened}
use fanotify_fid.Fid.Wire.Event.{Notice, IsNotice}
use fanotify_fid.Fid.Wire.RoundTrip.{wire_events}
use fanotify_fid.Fd.RoundTrip.{fd_meaning, parse_fd_events-wire_events}
use fanotify_fid.Fd.Adopt.{adopt_fds, adopt_reported, owned_fds}

-- One event without records, and the first bytes of another.
abbrev buffer : Bytes
buffer =
    24 ∷ 0 ∷ 0 ∷ 0 ∷ 3 ∷ 0 ∷ 24 ∷ 0 ∷ 2 ∷ 0 ∷ 0 ∷ 0 ∷ 0 ∷ 0 ∷ 0 ∷ 0 ∷ 7 ∷ 0 ∷ 0 ∷ 0 ∷ 42 ∷ 0 ∷ 0 ∷ 0
    ∷ 24 ∷ 0 ∷ []

abbrev held : FdEvent
held = record { mask = 1; pid = pos 1; fd = some (pos 4); fd_field = pos 4 }

parse_fd_events_into-reuse_example :
    parse_fd_events_into little buffer (held ∷ held ∷ []) ≡ parse_fd_events_into little buffer []
parse_fd_events_into-reuse_example = parse_fd_events_into-reuse little buffer (held ∷ held ∷ [])

parsers_agree_example :
    let fid = parse_fid_events_into little buffer [] in
    let fd = parse_fd_events_into little buffer (held ∷ []) in
    (fd.1 ≡ fid.1) × (map fd_subject fd.0 ≡ map fid_subject fid.0)
parsers_agree_example = parsers_agree little buffer [] (held ∷ [])

abbrev reporting : List FdEvent
reporting =
    record { mask = 2; pid = pos 1; fd = none; fd_field = pos 7 }
    ∷ record { mask = 2; pid = pos 1; fd = none; fd_field = pos 7 }
    ∷ record { mask = 2; pid = pos 1; fd = none; fd_field = negsuc 0 }
    ∷ []

adopt_fds_run : owned_fds (adopt_fds reporting []) ≡ some (pos 7) ∷ none ∷ none ∷ []
unfolding adopt_fds adopt_reported contains
adopt_fds_run = refl

-- An open and an overflow, with one byte of the next header and a slot in use before.
abbrev notices : List Notice
notices =
    record { mask = 0x20; fd = pos 5; pid = pos 42; infos = [] }
    ∷ record { mask = 0x4000; fd = negsuc 0; pid = pos 0; infos = [] }
    ∷ []

notices-IsNotice : All (IsNotice little) notices
unfolding opened
notices-IsNotice = (omega arith, (omega arith, tt))

parse_fd_events-wire_events_example :
    parse_fd_events_into little
      (wire_events little notices ++ 24 ∷ [])
      (record { mask = 1; pid = pos 1; fd = some (pos 4); fd_field = pos 4 } ∷ [])
    ≡ (
      map fd_meaning notices,
      record {
        bytes_consumed = length (wire_events little notices);
        bytes_left = 1;
        stop = short_header;
      },
    )
parse_fd_events-wire_events_example =
    parse_fd_events-wire_events little notices (24 ∷ [])
      (record { mask = 1; pid = pos 1; fd = some (pos 4); fd_field = pos 4 } ∷ []) notices-IsNotice
      (omega arith)
