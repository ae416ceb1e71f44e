-- ===== src/Consts/OpenFlags.antt =====
-- src/consts.rs: the open(2) flags that fanotify_init(2) takes for the descriptors of events.
use fanotify_fid.Base.{ℕ, [], ◌∷◌}
use fanotify_fid.Consts.Flags.{any_of}

-- The values depend on the architecture: each is the constant of that name in `libc`.
pub record OpenFlags : Type 0 where
  pub o_rdonly : ℕ
  pub o_wronly : ℕ
  pub o_rdwr : ℕ
  pub o_append : ℕ
  pub o_nonblock : ℕ
  pub o_dsync : ℕ
  pub o_sync : ℕ
  pub o_largefile : ℕ
  pub o_noatime : ℕ
  pub o_cloexec : ℕ

unfoldable pub event_f_flags_allowed : OpenFlags → ℕ
event_f_flags_allowed libc = any_of (
    libc.o_rdonly ∷ libc.o_wronly ∷ libc.o_rdwr ∷ libc.o_append ∷ libc.o_nonblock ∷ libc.o_dsync
    ∷ libc.o_sync ∷ libc.o_largefile ∷ libc.o_noatime ∷ libc.o_cloexec ∷ [])
