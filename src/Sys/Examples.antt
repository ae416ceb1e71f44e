-- ===== src/Sys/Examples.antt =====
-- The theorems on src/sys.rs at concrete answers.
use fanotify_fid.Base.{◌≡◌, refl, none, some, [], ◌∷◌, ◌++◌, replicate}
use fanotify_fid.Errors.{ok}
use fanotify_fid.Errors.Errno
use fanotify_fid.Sys.Read.{got, failed, write_front, read_into}
use fanotify_fid.Sys.Retry.{is_signal, result_of, read_into-signals}

-- A signal, then three bytes; a buffer of five.
interrupted :
    read_into (0 ∷ 0 ∷ 0 ∷ 8 ∷ 9 ∷ []) (failed Errno.eintr ∷ got (1 ∷ 2 ∷ 3 ∷ []) ∷ [])
    ≡ some (ok 3, 1 ∷ 2 ∷ 3 ∷ 8 ∷ 9 ∷ [], [])
unfolding read_into write_front
interrupted = refl

-- Nothing has arrived but signals.
still_waiting : read_into (0 ∷ []) (failed Errno.eintr ∷ failed Errno.eintr ∷ []) ≡ none
unfolding read_into
still_waiting = refl

read_into-signals_example :
    read_into
      (0 ∷ 0 ∷ [])
      (replicate 3 (failed Errno.eintr) ++ failed Errno.eagain ∷ got (1 ∷ []) ∷ [])
    ≡ some (
      (result_of (0 ∷ 0 ∷ []) (failed Errno.eagain)).0,
      (result_of (0 ∷ 0 ∷ []) (failed Errno.eagain)).1,
      got (1 ∷ []) ∷ [],
    )
read_into-signals_example =
    read_into-signals 3 (0 ∷ 0 ∷ []) (failed Errno.eagain) (got (1 ∷ []) ∷ [])
      (unfold is_signal in refl)
