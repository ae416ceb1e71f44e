-- ===== src/Parse.antt =====
-- src/parse.rs: how far an event walk got, and why it stopped.
use fanotify_fid.Base.{ℕ, Bool, true, false}

pub data EventStop : Type 0 where
  end : EventStop
  short_header : EventStop
  bad_event_len : ℕ → EventStop
  bad_metadata_len : EventStop
  unknown_version : ℕ → EventStop

pub record ParseReport : Type 0 where
  pub bytes_consumed : ℕ
  pub bytes_left : ℕ
  pub stop : EventStop

abbrev stopped_at_end : EventStop → Bool
stopped_at_end end = true
stopped_at_end _ = false

unfoldable pub is_complete : ParseReport → Bool
is_complete r = stopped_at_end r.stop
