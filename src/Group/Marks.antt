-- ===== src/Group/Marks.antt =====
-- src/group.rs: `Fanotify`, the owner of a group's descriptor, and what it asks of the kernel apart
-- from reading.
use fanotify_fid.Base.{ℕ, ℤ, Option, [], ◌∷◌}
use fanotify_fid.Bytes.{Bytes, Endian}
use fanotify_fid.Consts.{at_fdcwd}
use fanotify_fid.Consts.MarkFlags.{fan_mark_flush}
use fanotify_fid.Errors.{Result, ok, err}
use fanotify_fid.Response.Decision.{FanotifyResponse}
use fanotify_fid.Response.Encode.{Written, write_response}
use fanotify_fid.Sys.Calls.{Returned, fanotify_init, fanotify_mark, fanotify_mark_by_fd}

pub record Fanotify : Type 0 where
  pub fd : ℤ

-- `unsafe` in the source: the caller vouches for the descriptor.
unfoldable pub from_fd : ℤ → Fanotify
from_fd descriptor = record { fd = descriptor }

unfoldable pub into_inner : Fanotify → ℤ
into_inner group = group.fd

unfoldable pub own_group {ℓ} : {K : Type ℓ} → K × Result ℤ → K × Result Fanotify
own_group (k, ok descriptor) = (k, ok (record { fd = descriptor }))
own_group (k, err e) = (k, err e)

module _ {ℓ} {K : Type ℓ} where
  module _ (sys_init : K → ℕ → ℕ → K × Returned) where
    unfoldable pub init : K → ℕ → ℕ → K × Result Fanotify
    init k flags event_f_flags = own_group (fanotify_init sys_init k flags event_f_flags)

    unfoldable pub new : K → ℕ → K × Result Fanotify
    new k flags = init k flags 0

  module _ (sys_mark : K → ℤ → ℕ → ℕ → ℤ → Option Bytes → K × Returned) where
    unfoldable pub mark : K → Fanotify → ℕ → ℕ → Bytes → K × Result (Unit {0})
    mark k group flags mask path = fanotify_mark sys_mark k group.fd flags mask at_fdcwd path

    unfoldable pub mark_at : K → Fanotify → ℤ → ℕ → ℕ → Bytes → K × Result (Unit {0})
    mark_at k group dir_fd flags mask path =
        fanotify_mark sys_mark k group.fd flags mask dir_fd path

    unfoldable pub mark_fd : K → Fanotify → ℤ → ℕ → ℕ → K × Result (Unit {0})
    mark_fd k group object flags mask = fanotify_mark_by_fd sys_mark k group.fd flags mask object

    -- The path is "/", which always exists.
    unfoldable pub flush_marks : K → Fanotify → K × Result (Unit {0})
    flush_marks k group = fanotify_mark sys_mark k group.fd fan_mark_flush 0 at_fdcwd (47 ∷ [])

  unfoldable pub send_response :
      Endian → (K → Bytes → K × Written) → K → FanotifyResponse → K × Result (Unit {0})
  send_response en sys_write k response = write_response en sys_write k response
