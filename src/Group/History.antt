-- ===== src/Group/History.antt =====
-- A reader over its whole life: any sequence of reads, each ended by some answers of the kernel.
use fanotify_fid.Base.{
  ℕ, zero, suc, pos, ◌≤◌, ◌≡◌, refl, subst, inl, inr, Bool-cases, none, some, List, [], ◌∷◌, ◌==◌,
  All, length, drop, replicate, length-append, length-drop, length-replicate, arith,
}
use fanotify_fid.Bytes.{Bytes, Endian}
use fanotify_fid.Errors.{FanotifyError, Result, ok, err}
use fanotify_fid.Errors.Errno
use fanotify_fid.Parse.{ParseReport}
use fanotify_fid.Owners.{Distinct, numbers}
use fanotify_fid.Fid.Event.{FidEvent}
use fanotify_fid.Fid.Adopt.{owned_pidfds}
use fanotify_fid.Fd.Event.{FdEvent, new}
use fanotify_fid.Fd.Adopt.{owned_fds}
use fanotify_fid.Sys.Read.{ReadAnswer, got, failed, write_front, read_into}
use fanotify_fid.Sys.Retry.{take-write_front}
use fanotify_fid.Group.Stateless.{Outcome, adopt_batch, adopt_fd_batch}
use fanotify_fid.Group.Readers.{
  Reader, EventReader, FdEventReader, buf_bytes, most_events, new_event_reader, new_fd_event_reader,
  clear_reader, raw_bytes, finish_reader, read_cleared, fill_events, fill_fd_events, read_reported,
  fd_read_reported,
}
use fanotify_fid.Group.Unowned.{parse_fid-Distinct, parse_fd-Distinct}
use fanotify_fid.Group.Same.{truncate_all}

-- read(2) writes no more than the buffer holds.
abbrev pub Fits : ℕ → ReadAnswer → Type 0
Fits capacity (got bytes) = length bytes ≤ capacity
Fits capacity (failed e) = Unit

-- `Reads read r s`: some reads lead from the reader `r` to the reader `s`.
pub data Reads {ℓ} {E : Type ℓ} (read : Reader E → List ReadAnswer → Outcome ParseReport (Reader E))
    (r : Reader E) : Reader E → Type ℓ where
  here : Reads read r r
  then_read :
      {s t : Reader E} (answers rest : List ReadAnswer) (result : Result ParseReport)
      → Reads read r s
      → All (Fits (length s.buf)) answers
      → read s answers ≡ some (result, t, rest)
      → Reads read r t

-- What holds of a reader of `capacity` bytes whose events satisfy `D`.
pub record IsReader {ℓ κ} {E : Type ℓ} (D : List E → Type κ) (capacity : ℕ) (r : Reader E)
    : Type κ where
  pub size : length r.buf ≡ capacity
  pub within : r.bytes_read ≤ capacity
  pub holds : D r.events

-- After a failed read, a reader holds no bytes and no events.
abbrev pub AfterFailure {ℓ} : {E : Type ℓ} → Result ParseReport → Reader E → Type ℓ
AfterFailure (ok report) r = Unit
AfterFailure (err e) r = (r.events ≡ []) × (raw_bytes r ≡ [])

module _ {ℓ κ} {E : Type ℓ} (fill : List E → ℕ → Bytes → List E × ParseReport) (D : List E → Type κ)
    (empty : D [])
    (filled : (bytes buf : Bytes) → D (fill [] (length bytes) (write_front bytes buf)).0) where
  abbrev Ensures : ℕ → Outcome ParseReport (Reader E) → Type (ℓ ⊔ κ)
  Ensures capacity none = Unit
  Ensures capacity (some (result, r, rest)) = IsReader D capacity r × AfterFailure result r

  finish-Ensures :
      (capacity : ℕ) (buf : Bytes) (answers : List ReadAnswer)
      → length buf ≡ capacity
      → All (Fits capacity) answers
      → Ensures capacity (finish_reader fill [] (read_into buf answers))
  unfolding finish_reader read_into
  finish-Ensures capacity buf [] size fits = tt
  finish-Ensures capacity buf (got bytes ∷ answers) size fits = (
    record {
      size =
          unfold write_front in
          omega (
            arith,
            fits.0,
            size,
            length-append bytes (drop (length bytes) buf),
            length-drop (length bytes) buf,
          );
      within = fits.0;
      holds = filled bytes buf;
    },
    tt,
  )
  finish-Ensures capacity buf (failed e ∷ answers) size fits =
      elim (Bool-cases (e == Errno.eintr)) [
        | inl signal ↦ rw signal (finish-Ensures capacity buf answers size fits.1)
        | inr refused ↦ rw refused (
          record { size = size; within = omega arith; holds = empty },
          (refl, unfold raw_bytes in refl),
        )
      ]

  read_cleared-Ensures :
      (capacity : ℕ) (r : Reader E) (answers : List ReadAnswer)
      → length r.buf ≡ capacity
      → All (Fits capacity) answers
      → Ensures capacity (read_cleared fill (clear_reader r) answers)
  unfolding read_cleared clear_reader
  read_cleared-Ensures capacity r answers size fits =
      finish-Ensures capacity r.buf answers size fits

  Reads-IsReader :
      {capacity : ℕ} {r s : Reader E}
      → IsReader D capacity r
      → Reads (λ s answers. read_cleared fill (clear_reader s) answers) r s
      → IsReader D capacity s
  Reads-IsReader h here = h
  Reads-IsReader {capacity} h (then_read {s} answers rest result before fits e) =
      let so_far = Reads-IsReader h before in
      (subst (Ensures capacity) e (
        read_cleared-Ensures capacity s answers so_far.size
          (subst (λ n. All (Fits n) answers) so_far.size fits))).0

  -- The last of some reads, if it failed.
  read-AfterFailure :
      {capacity : ℕ} {r s t : Reader E}
      → IsReader D capacity r
      → Reads (λ s answers. read_cleared fill (clear_reader s) answers) r s
      → (answers rest : List ReadAnswer) (e : FanotifyError) → All (Fits (length s.buf)) answers
      → read_cleared fill (clear_reader s) answers ≡ some (err e, t, rest)
      → (t.events ≡ []) × (raw_bytes t ≡ [])
  read-AfterFailure {s} h before answers rest e fits failure =
      (subst (Ensures (length s.buf)) failure
        (read_cleared-Ensures (length s.buf) s answers refl fits)).1

-- No descriptor has two owners among some events.
abbrev pub OnceEach : List FidEvent → Type 0
OnceEach events = Distinct (numbers (owned_pidfds events))

abbrev pub FdOnceEach : List FdEvent → Type 0
FdOnceEach events = Distinct (numbers (owned_fds events))

new_slots-FdOnceEach : (n : ℕ) → FdOnceEach (replicate n (new 0 none (pos 0)))
unfolding new
new_slots-FdOnceEach zero = tt
new_slots-FdOnceEach (suc n) = new_slots-FdOnceEach n

new_event_reader-IsReader :
    (capacity : ℕ) → IsReader OnceEach (buf_bytes capacity) (new_event_reader capacity)
unfolding new_event_reader
new_event_reader-IsReader capacity = record {
  size = length-replicate {A = ℕ} (buf_bytes capacity) 0;
  within = omega arith;
  holds = tt;
}

new_fd_event_reader-IsReader :
    (capacity : ℕ) → IsReader FdOnceEach (buf_bytes capacity) (new_fd_event_reader capacity)
unfolding new_fd_event_reader
new_fd_event_reader-IsReader capacity = record {
  size = length-replicate {A = ℕ} (buf_bytes capacity) 0;
  within = omega arith;
  holds = new_slots-FdOnceEach (most_events (buf_bytes capacity));
}

module _ (en : Endian) where
  fill_events-OnceEach :
      (bytes buf : Bytes) → OnceEach (fill_events en [] (length bytes) (write_front bytes buf)).0
  unfolding fill_events adopt_batch
  fill_events-OnceEach bytes buf = elim (Bool-cases (length bytes == 0)) [
    | inl nothing ↦ rw nothing tt
    | inr some_bytes ↦ rw some_bytes (parse_fid-Distinct en _ [])
  ]

  fill_fd_events-FdOnceEach :
      (bytes buf : Bytes)
      → FdOnceEach (fill_fd_events en [] (length bytes) (write_front bytes buf)).0
  unfolding fill_fd_events adopt_fd_batch
  fill_fd_events-FdOnceEach bytes buf =
      rw (take-write_front bytes buf, truncate_all en bytes) (parse_fd-Distinct en bytes)

  -- Whatever reads have been made, an `EventReader`'s buffer has the size that it was made with, no
  -- more bytes of it count as read, and no pidfd has two owners among its events.
  pub event_reader-Reads :
      (capacity : ℕ) (r : EventReader)
      → Reads (read_reported en) (new_event_reader capacity) r
      → IsReader OnceEach (buf_bytes capacity) r
  unfolding read_reported
  event_reader-Reads capacity r reads =
      Reads-IsReader (fill_events en) OnceEach tt fill_events-OnceEach
        (new_event_reader-IsReader capacity) reads

  -- Whatever reads have been made, an `FdEventReader`'s buffer has the size that it was made with,
  -- no more bytes of it count as read, and no descriptor has two owners among its events.
  pub fd_event_reader-Reads :
      (capacity : ℕ) (r : FdEventReader)
      → Reads (fd_read_reported en) (new_fd_event_reader capacity) r
      → IsReader FdOnceEach (buf_bytes capacity) r
  unfolding fd_read_reported
  fd_event_reader-Reads capacity r reads =
      Reads-IsReader (fill_fd_events en) FdOnceEach tt fill_fd_events-FdOnceEach
        (new_fd_event_reader-IsReader capacity) reads

  -- A read that fails leaves an `FdEventReader` with no events, and so with no descriptor of the
  -- batch before, and with no bytes.
  pub fd_event_reader-failure :
      (capacity : ℕ) (r s : FdEventReader)
      → Reads (fd_read_reported en) (new_fd_event_reader capacity) r
      → (answers rest : List ReadAnswer) (e : FanotifyError) → All (Fits (length r.buf)) answers
      → fd_read_reported en r answers ≡ some (err e, s, rest)
      → (s.events ≡ []) × (raw_bytes s ≡ [])
  unfolding fd_read_reported
  fd_event_reader-failure capacity r s reads answers rest e fits failure =
      read-AfterFailure (fill_fd_events en) FdOnceEach tt fill_fd_events-FdOnceEach
        (new_fd_event_reader-IsReader capacity) reads answers rest e fits failure
