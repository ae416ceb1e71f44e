-- ===== src/Sys/Retry.antt =====
-- A signal is no answer: `read_into` passes over any number of them.
use fanotify_fid.Base.{
  ℕ, zero, suc, ◌≡◌, refl, Bool, false, some, List, ◌∷◌, ◌++◌, ◌==◌, length, take, replicate,
  take-append_left,
}
use fanotify_fid.Bytes.{Bytes}
use fanotify_fid.Errors.{Result, ok, err, read}
use fanotify_fid.Errors.Errno
use fanotify_fid.Sys.Read.{ReadAnswer, got, failed, write_front, read_into}

unfoldable pub is_signal : ReadAnswer → Bool
is_signal (got bytes) = false
is_signal (failed e) = e == Errno.eintr

-- What an answer other than a signal makes of the call.
unfoldable pub result_of : Bytes → ReadAnswer → Result ℕ × Bytes
result_of buf (got bytes) = (ok (length bytes), write_front bytes buf)
result_of buf (failed e) = (err (read e), buf)

read_into-answer :
    (buf : Bytes) (a : ReadAnswer) (answers : List ReadAnswer)
    → is_signal a ≡ false
    → read_into buf (a ∷ answers) ≡ some ((result_of buf a).0, (result_of buf a).1, answers)
unfolding read_into result_of is_signal
read_into-answer buf (got bytes) answers h = refl
read_into-answer buf (failed e) answers h = rw h refl

-- However many signals arrive first, the call ends with the first answer that is none, and the
-- signals leave no trace in the result, in the buffer or in the answers that follow.
pub read_into-signals :
    (n : ℕ) (buf : Bytes) (a : ReadAnswer) (answers : List ReadAnswer)
    → is_signal a ≡ false
    → read_into buf (replicate n (failed Errno.eintr) ++ a ∷ answers)
      ≡ some ((result_of buf a).0, (result_of buf a).1, answers)
unfolding read_into
read_into-signals zero buf a answers h = read_into-answer buf a answers h
read_into-signals (suc n) buf a answers h = read_into-signals n buf a answers h

-- The length that was read tells the new bytes from the old.
pub take-write_front : (bytes buf : Bytes) → take (length bytes) (write_front bytes buf) ≡ bytes
unfolding write_front
take-write_front bytes buf = take-append_left (length bytes) bytes _ refl
