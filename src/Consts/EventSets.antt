-- ===== src/Consts/EventSets.antt =====
-- src/consts.rs: the sets of event bits that it names.
use fanotify_fid.Base.{ℕ, [], ◌∷◌}
use fanotify_fid.Consts.EventMask.{
  fan_access, fan_modify, fan_attrib, fan_close_write, fan_close_nowrite, fan_open, fan_open_exec,
  fan_moved_from, fan_moved_to, fan_open_perm, fan_access_perm, fan_open_exec_perm, fan_mnt_attach,
  fan_mnt_detach, fan_q_overflow,
}
use fanotify_fid.Consts.Flags.{any_of}

abbrev pub fan_close : ℕ
fan_close = any_of (fan_close_write ∷ fan_close_nowrite ∷ [])

abbrev pub fan_move : ℕ
fan_move = any_of (fan_moved_from ∷ fan_moved_to ∷ [])

abbrev pub fanotify_mount_events : ℕ
fanotify_mount_events = any_of (fan_mnt_attach ∷ fan_mnt_detach ∷ [])

abbrev pub fan_all_events : ℕ
fan_all_events =
    any_of (fan_access ∷ fan_modify ∷ fan_attrib ∷ fan_close ∷ fan_open ∷ fan_open_exec ∷ [])

abbrev pub fan_all_perm_events : ℕ
fan_all_perm_events = any_of (fan_open_perm ∷ fan_access_perm ∷ fan_open_exec_perm ∷ [])

abbrev pub fan_all_outgoing_events : ℕ
fan_all_outgoing_events = any_of (fan_all_events ∷ fan_all_perm_events ∷ fan_q_overflow ∷ [])
