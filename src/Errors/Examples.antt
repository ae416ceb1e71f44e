-- ===== src/Errors/Examples.antt =====
-- The theorems on src/error.rs at concrete errors, and the messages of two of them.
use fanotify_fid.Base.{◌≡◌, refl}
use fanotify_fid.Errors.{read, mark, unknown_event_version}
use fanotify_fid.Errors.Errno
use fanotify_fid.Errors.Describe.{describe_mark, describe_read}
use fanotify_fid.Errors.Display.{display, display_inj}
use fanotify_fid.Texts.{codes, digits, decimal}

display_inj_example : read Errno.eagain ≡ read 11
display_inj_example = display_inj (read Errno.eagain) (read 11) refl

display-eagain :
    display (read 11)
    ≡ codes "fanotify read failed (errno=11): No events are queued (non-blocking group)"
unfolding display describe_read codes decimal digits
display-eagain = refl

display-unknown :
    display (mark 77)
    ≡ codes
        "fanotify_mark failed (errno=77): Unknown errno 77.  See fanotify_mark(2) for the full list."
unfolding display describe_mark codes decimal digits
display-unknown = refl

display-version :
    display (unknown_event_version 4)
    ≡ codes
        "buffer is not a fanotify event: metadata.vers = 4, expected 3.  This usually means the descriptor is not a fanotify group"
unfolding display codes decimal digits
display-version = refl
