-- ===== src/Errors/Errno.antt =====
-- The errno values of `libc` that the code names.
use fanotify_fid.Base.{ℕ}

abbrev pub eintr : ℕ
eintr = 4

abbrev pub eio : ℕ
eio = 5

abbrev pub eagain : ℕ
eagain = 11

abbrev pub exdev : ℕ
exdev = 18

abbrev pub einval : ℕ
einval = 22

abbrev pub eperm : ℕ
eperm = 1

abbrev pub enoent : ℕ
enoent = 2

abbrev pub ebadf : ℕ
ebadf = 9

abbrev pub enomem : ℕ
enomem = 12

abbrev pub enodev : ℕ
enodev = 19

abbrev pub enotdir : ℕ
enotdir = 20

abbrev pub emfile : ℕ
emfile = 24

abbrev pub enospc : ℕ
enospc = 28

abbrev pub enosys : ℕ
enosys = 38

abbrev pub eopnotsupp : ℕ
eopnotsupp = 95
