-- ===== src/Group/Verdicts.antt =====
-- src/group.rs and src/response.rs together: a program that reads permission events and answers
-- each with its own decision, and what the kernel makes of the answers.
use fanotify_fid.Base.{
  ℕ, ℤ, is_negative, ◌<◌, ◌^◌, ◌≡◌, refl, ap, ◌∙◌, Bool, Bool-cases, inl, inr, false, Option, none,
  some, List, [], ◌∷◌, ◌++◌, map, All, replicate, length, arith, if◌then◌else◌, IsI32,
}
use mathlib.Core.List.{append-nil}
use fanotify_fid.Bytes.{Bytes, Endian}
use fanotify_fid.Consts.{fan_allow, fan_deny}
use fanotify_fid.Errors.{Result, ok, err}
use fanotify_fid.Errors.Errno
use fanotify_fid.Owners.{contains}
use fanotify_fid.Fid.Walk.{reject_version}
use fanotify_fid.Fid.Wire.Event.{Notice, IsNotice}
use fanotify_fid.Fid.Wire.RoundTrip.{wire_events}
use fanotify_fid.Fd.Event.{FdEvent}
use fanotify_fid.Fd.Adopt.{adopt_fds, adopt_reported}
use fanotify_fid.Fd.RoundTrip.{fd_meaning, parse_fd_events-wire_events}
use fanotify_fid.Response.Decision.{FanotifyResponse, allow, deny, raw}
use fanotify_fid.Response.Decode.{decode, decode-wire_bytes}
use fanotify_fid.Response.Encode.{Written, consumed, fd_field, write_response}
use fanotify_fid.Response.Wire.{has_room, wire_bytes}
use fanotify_fid.Response.Write.{write_response-outcome}
use fanotify_fid.Sys.Read
use fanotify_fid.Sys.Read.{
  ReadAnswer, got, failed, ByteVec, contents, write_front, read_into, reserve_default, finish_read,
}
use fanotify_fid.Sys.Retry.{read_into-signals, result_of, is_signal, take-write_front}
use fanotify_fid.Group.Same.{observe}
use fanotify_fid.Group.Stateless.{
  adopt_fd_batch, after_read, reject_batch, rejecting, read_fd_events_reported, read_fd_events,
}

-- The event of a notice, with its descriptor.
abbrev pub owning : Notice → FdEvent
owning n = record { mask = n.mask; pid = n.pid; fd = some n.fd; fd_field = n.fd }

-- Every event comes with a descriptor of its own, none of those before it.
abbrev pub Own : List ℤ → List Notice → Type 0
Own seen [] = Unit
Own seen (n ∷ ns) =
    (is_negative n.fd ≡ false) × (contains n.fd seen ≡ false) × Own (seen ++ n.fd ∷ []) ns

adopt_fds-owning :
    (ns : List Notice) (seen : List ℤ)
    → Own seen ns
    → adopt_fds (map fd_meaning ns) seen ≡ map owning ns
unfolding adopt_fds adopt_reported fd_meaning
adopt_fds-owning [] seen own = refl
adopt_fds-owning (n ∷ ns) seen own =
    rw (own.0, own.1) (ap (λ es. owning n ∷ es) (adopt_fds-owning ns (seen ++ n.fd ∷ []) own.2))

module _ (en : Endian) where
  -- Descriptor events reach the caller of the stateless read, each with its descriptor.
  pub read_fd_events-wire_events :
      (signals : ℕ) (ns : List Notice) (buf : ByteVec) (answers : List ReadAnswer)
      → All (IsNotice en) ns
      → Own [] ns
      → observe (
          read_fd_events en buf
            (replicate signals (failed Errno.eintr) ++ got (wire_events en ns) ∷ answers))
        ≡ some (ok (map owning ns), answers)
  unfolding read_fd_events read_fd_events_reported Read.read_events is_signal
  read_fd_events-wire_events signals ns buf answers valid own =
      rw
        (read_into-signals signals (reserve_default buf).allocation (got (wire_events en ns))
          answers refl)
        (unfold result_of finish_read after_read contents rejecting reject_batch observe in
          rw (take-write_front (wire_events en ns) (reserve_default buf).allocation) (
            unfold adopt_fd_batch reject_version in
            rw (rw append-nil at (parse_fd_events-wire_events en ns [] [] valid (omega arith)))
              (ap (λ es. some (ok es, answers)) (adopt_fds-owning ns [] own))))

  module _ {ℓ} {K : Type ℓ} (sys_write : K → Bytes → K × Written) (decide : FdEvent → Bool) where
    -- The answer to an event that came with a descriptor.
    unfoldable pub answer_for : FdEvent → ℤ → FanotifyResponse
    answer_for e n = if decide e then allow n else deny n

    unfoldable pub answer_one : K → FdEvent → Option ℤ → K
    answer_one k e none = k
    answer_one k e (some n) = (write_response en sys_write k (answer_for e n)).0

    unfoldable pub answer_each : K → List FdEvent → K
    answer_each k [] = k
    answer_each k (e ∷ es) = answer_each (answer_one k e e.fd) es

    -- What the program does with what a read returns.
    unfoldable pub serve : K → Option (Result (List FdEvent) × List ReadAnswer) → K
    serve k none = k
    serve k (some (err e, rest)) = k
    serve k (some (ok es, rest)) = answer_each k es

    -- The kernel takes each answer whole, and notes the descriptor and the word that it finds in it.
    module _ (note : K → ℤ → ℕ → K)
        (notes : (k : K) (bytes : Bytes)
          → sys_write k bytes
            ≡ (note k (decode en bytes).fd (decode en bytes).word, consumed (length bytes))) where
      abbrev word_of : FdEvent → ℕ
      word_of e = if decide e then fan_allow else fan_deny

      -- One note for each event, in order.
      abbrev pub note_each : K → List Notice → K
      note_each k [] = k
      note_each k (n ∷ ns) = note_each (note k n.fd (word_of (owning n))) ns

      write_response-note :
          (k : K) (n : ℤ) (word : ℕ)
          → IsI32 n
          → word < 2 ^ 32
          → (write_response en sys_write k (raw (some n) word)).0 ≡ note k n word
      unfolding has_room raw fd_field
      write_response-note k n word fits small =
          let r = raw (some n) word in
          ap (λ a. a.0) (write_response-outcome en sys_write k r)
          ∙ ap (λ a. a.0) (notes k (wire_bytes en r))
          ∙ ap (λ d. note k d.fd d.word) (decode-wire_bytes en r fits small refl)

      answer_for_lem : (e : FdEvent) (n : ℤ) → answer_for e n ≡ raw (some n) (word_of e)
      unfolding answer_for allow deny
      answer_for_lem e n = elim (Bool-cases (decide e)) [
        | inl allowed ↦ rw allowed refl
        | inr denied ↦ rw denied refl
      ]

      word_of-small : (e : FdEvent) → word_of e < 2 ^ 32
      word_of-small e = elim (Bool-cases (decide e)) [
        | inl allowed ↦ rw allowed (omega arith)
        | inr denied ↦ rw denied (omega arith)
      ]

      answer_one-note :
          (k : K) (n : Notice)
          → IsI32 n.fd
          → answer_one k (owning n) (some n.fd) ≡ note k n.fd (word_of (owning n))
      unfolding answer_one
      answer_one-note k n fits =
          ap (λ r. (write_response en sys_write k r).0) (answer_for_lem (owning n) n.fd)
          ∙ write_response-note k n.fd (word_of (owning n)) fits (word_of-small (owning n))

      answer_each-note_each :
          (ns : List Notice) (k : K)
          → All (IsNotice en) ns
          → answer_each k (map owning ns) ≡ note_each k ns
      unfolding answer_each
      answer_each-note_each [] k v = refl
      answer_each-note_each (n ∷ ns) k v =
          ap (λ k'. answer_each k' (map owning ns)) (answer_one-note k n v.0.fd_fits)
          ∙ answer_each-note_each ns (note k n.fd (word_of (owning n))) v.1

      -- A program reads a batch of permission events, each with a descriptor of its own, and answers
      -- each by its decision. A kernel that takes each answer whole then notes one answer for each
      -- event, in order, for that event's descriptor and with the program's decision about it,
      -- however many signals interrupt the read.
      pub serve-read_fd_events :
          (signals : ℕ) (ns : List Notice) (buf : ByteVec) (answers : List ReadAnswer) (k : K)
          → All (IsNotice en) ns
          → Own [] ns
          → serve k (
              observe (
                read_fd_events en buf
                  (replicate signals (failed Errno.eintr) ++ got (wire_events en ns) ∷ answers)))
            ≡ note_each k ns
      unfolding serve
      serve-read_fd_events signals ns buf answers k valid own =
          ap (serve k) (read_fd_events-wire_events signals ns buf answers valid own)
          ∙ answer_each-note_each ns k valid
