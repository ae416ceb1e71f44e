-- ===== src/Fd/Event.antt =====
-- src/fd.rs: `FdEvent`. An owned descriptor is its number.
use fanotify_fid.Consts.EventMask.{fan_q_overflow, has_bit}
use fanotify_fid.Base.{
  ℕ, ℤ, pos, is_negative, not, Bool, ◌||◌, Option, none, some, is_some, if◌then◌else◌,
}
use fanotify_fid.Consts.{fan_nofd}

pub record FdEvent : Type 0 where
  pub mask : ℕ
  pub pid : ℤ
  pub fd : Option ℤ
  pub fd_field : ℤ

-- `fd.as_ref().map_or(FAN_NOFD, AsRawFd::as_raw_fd)`
abbrev raw_or_nofd : Option ℤ → ℤ
raw_or_nofd none = fan_nofd
raw_or_nofd (some n) = n

unfoldable pub new : ℕ → Option ℤ → ℤ → FdEvent
new mask fd pid = record { mask = mask; pid = pid; fd = fd; fd_field = raw_or_nofd fd }

unfoldable pub set_fd_field : FdEvent → ℤ → FdEvent
set_fd_field e field = record e { fd_field = field }

unfoldable pub no_fd_reason : FdEvent → Option ℤ
no_fd_reason e = if is_some e.fd || not (is_negative e.fd_field) then none else some e.fd_field

unfoldable pub is_overflow : FdEvent → Bool
is_overflow e = has_bit e.mask fan_q_overflow

unfoldable pub reset : FdEvent → FdEvent
reset e = record e { mask = 0; pid = pos 0; fd = none; fd_field = pos 0 }
