-- ===== src/Fd/Held.antt =====
-- src/fd.rs: the descriptor that an event holds, and the path of its object. The links of /proc are
-- a parameter.
use fanotify_fid.Base.{ℤ, Option, none, some, ◌>>=◌}
use fanotify_fid.Fid.Event.{FilePath}
use fanotify_fid.Handle.Open.{IoResult, done, failed}
use fanotify_fid.Fd.Event.{FdEvent}

unfoldable pub into_fd : FdEvent → Option ℤ
into_fd e = e.fd

-- `Result::ok`
unfoldable pub ok_path : IoResult FilePath → Option FilePath
ok_path (done path) = some path
ok_path (failed e) = none

unfoldable pub path_of_fd : (ℤ → IoResult FilePath) → FdEvent → Option FilePath
path_of_fd read_link e = e.fd >>= λ fd. ok_path (read_link fd)
