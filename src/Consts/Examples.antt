-- ===== src/Consts/Examples.antt =====
-- The theorems on the names of event bits at concrete masks.
use fanotify_fid.Base.{◌≡◌, refl, [], ◌∷◌}
use fanotify_fid.Consts.EventMask.{has_bit}
use fanotify_fid.Consts.EventNames.{names_of, mask_to_event_names}

-- FAN_CREATE | FAN_MODIFY
named : mask_to_event_names 0x102 ≡ "MODIFY" ∷ "CREATE" ∷ []
unfolding mask_to_event_names names_of has_bit
named = refl
