-- ===== src/Group/Scenarios.antt =====
-- The theorems on a group together with a resolver and with responses, at concrete runs.
use fanotify_fid.Base.{
  ℤ, ℕ, Bool, eq_ℤ, length, All, inl, inr, pos, negsuc, ◌≡◌, ◌⊎◌, refl, false, some, List, [], ◌∷◌,
  ◌++◌, map, replicate, arith,
}
use fanotify_fid.Bytes.{Bytes, little}
use fanotify_fid.Errors.{ok}
use fanotify_fid.Errors.Errno
use fanotify_fid.Owners.{contains}
use fanotify_fid.Fid.Wire
use fanotify_fid.Fid.Wire.Event.{Notice, IsNotice}
use fanotify_fid.Fid.Wire.RoundTrip.{wire_events}
use fanotify_fid.Fid.Open.{opened}
use fanotify_fid.Sys.Read.{got, failed, ByteVec}
use fanotify_fid.Group.Stateless.{read_events, read_fd_events}
use fanotify_fid.Group.Same.{observe}
use fanotify_fid.Handle.Open.{failed as failed_io, os}
use fanotify_fid.Paths.{push, is_absolute, ends_in_separator}
use fanotify_fid.Resolve.Resolver.{PathResolver, names_itself, bad_name}
use fanotify_fid.Resolve.Batch.{resolve_events}
use fanotify_fid.Group.Entries.{Entry, notice, resolved_paths, IsEntry, resolve_events-read_events}
use fanotify_fid.Fd.Event.{FdEvent}
use fanotify_fid.Response.Decode.{decode}
use fanotify_fid.Response.Encode.{Written, consumed}
use fanotify_fid.Group.Verdicts.{serve, serve-read_fd_events}

abbrev small : ByteVec
small = record { allocation = 0 ∷ 0 ∷ []; len = 1 }

-- The store knows one directory, and two files are created in it.
abbrev directory : Wire.FileHandle
directory = record { handle_type = pos 1; handle_bytes = 7 ∷ 7 ∷ [] }

abbrev made_in : Bytes → Entry
made_in name = record {
  mask = 0x100;
  pid = pos 42;
  fsid = (pos 3, negsuc 4);
  directory = directory;
  name = name;
  padding = 2;
  dir_path = b'/' ∷ b's' ∷ [];
}

abbrev knowing : PathResolver
knowing = record {
  store = λ fsid handle. some (b'/' ∷ b's' ∷ []);
  mounts = [];
  syscall_fallback = false;
}

made_in-IsEntry : (b : ℕ) → b ≡ b'a' ⊎ b ≡ b'b' → IsEntry little knowing.store (made_in (b ∷ []))
unfolding opened names_itself bad_name
made_in-IsEntry b (inl e) =
    rw e (record { fits = omega arith; named = refl; single = refl; known = refl })
made_in-IsEntry b (inr e) =
    rw e (record { fits = omega arith; named = refl; single = refl; known = refl })

resolve_events-read_events_example :
    resolved_paths
      (λ es. (resolve_events (λ m h. failed_io (os 1)) (λ fd. failed_io (os 2)) knowing es).0)
      (observe (
        read_events little small (
          replicate 1 (failed Errno.eintr)
          ++ got (wire_events little (map notice (made_in (b'a' ∷ []) ∷ made_in (b'b' ∷ []) ∷ [])))
            ∷ [])))
    ≡ some (
      ok (some (b'/' ∷ b's' ∷ b'/' ∷ b'a' ∷ []) ∷ some (b'/' ∷ b's' ∷ b'/' ∷ b'b' ∷ []) ∷ []),
      [],
    )
unfolding push is_absolute ends_in_separator
resolve_events-read_events_example =
    resolve_events-read_events little (λ m h. failed_io (os 1)) (λ fd. failed_io (os 2)) knowing 1
      (made_in (b'a' ∷ []) ∷ made_in (b'b' ∷ []) ∷ []) small []
      (made_in-IsEntry b'a' (inl refl), (made_in-IsEntry b'b' (inr refl), tt))

-- Two processes ask; the program allows what process 42 does.
abbrev asked : List Notice
asked =
    record { mask = 0x10000; fd = pos 5; pid = pos 42; infos = [] }
    ∷ record { mask = 0x10000; fd = pos 6; pid = pos 43; infos = [] }
    ∷ []

asked-IsNotice : All (IsNotice little) asked
unfolding opened
asked-IsNotice = (omega arith, (omega arith, tt))

abbrev Log : Type 0
Log = List (ℤ × ℕ)

abbrev noted : Log → ℤ → ℕ → Log
noted log n word = log ++ (n, word) ∷ []

abbrev kernel : Log → Bytes → Log × Written
kernel log bytes =
    (noted log (decode little bytes).fd (decode little bytes).word, consumed (length bytes))

abbrev trusted : FdEvent → Bool
trusted e = eq_ℤ e.pid (pos 42)

serve-read_fd_events_example :
    serve little kernel trusted [] (
      observe (
        read_fd_events little small
          (replicate 2 (failed Errno.eintr) ++ got (wire_events little asked) ∷ [])))
    ≡ (pos 5, 1) ∷ (pos 6, 2) ∷ []
unfolding contains
serve-read_fd_events_example =
    serve-read_fd_events little kernel trusted noted (λ k bytes. refl) 2 asked small [] []
      asked-IsNotice (refl, refl, (refl, refl, tt))
