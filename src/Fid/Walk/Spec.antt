-- ===== src/Fid/Walk/Spec.antt =====
-- The walk without slots: what `parse_fid_events_into` computes, whatever the caller's `Vec` held.
use fanotify_fid.Base.{
  ℕ, ◌+◌, ◌-◌, ◌<◌, ◌≡◌, max, not, Bool, true, false, ◌&&◌, ◌||◌, List, [], ◌∷◌, ◌++◌, ltb, ◌==◌,
  if◌then◌else◌, arith, Round, again, leave, loop, loop_lem, length, run_round,
}
use fanotify_fid.Bytes.{Bytes, Endian}
use fanotify_fid.Consts.{metadata_size, fanotify_metadata_version}
use fanotify_fid.Parse.{
  EventStop, end, short_header, bad_event_len, bad_metadata_len, unknown_version,
}
use fanotify_fid.Fid.Event.{FidEvent, new}
use fanotify_fid.Fid.Records.{EventMetadata, read_metadata, parse_one_event}

-- What a header says of the bytes from it on: an event, or the reason to stop.
pub data Verdict : Type 0 where
  stop_here : EventStop → Verdict
  event_here : EventMetadata → Verdict

pub record PureState : Type 0 where
  pub done : List FidEvent
  pub offset : ℕ
  pub version_checked : Bool

abbrev pub at_start : PureState
at_start = record { done = []; offset = 0; version_checked = false }

module _ (en : Endian) (buf : Bytes) where
  unfoldable pub verdict : ℕ → Bool → Verdict
  verdict offset checked =
      let meta = read_metadata en buf offset in
      if ltb (length buf) (offset + metadata_size)
      then stop_here (if offset == length buf then end else short_header)
      else if not checked && not (meta.vers == fanotify_metadata_version)
      then stop_here (unknown_version meta.vers)
      else if ltb meta.event_len metadata_size || ltb (length buf - offset) meta.event_len
      then stop_here (bad_event_len meta.event_len)
      else if ltb meta.event_len (max meta.metadata_len metadata_size)
      then stop_here bad_metadata_len
      else event_here meta

  -- The event that starts at `offset`, from a fresh one.
  unfoldable pub event_at : ℕ → EventMetadata → FidEvent
  event_at offset meta =
      parse_one_event en buf new offset meta.event_len (max meta.metadata_len metadata_size) meta

  -- The round of the pure walk, on the verdict.
  unfoldable pub pure_next : PureState → Verdict → Round PureState (List FidEvent × ℕ × EventStop)
  pure_next s (stop_here stop) = leave (s.done, s.offset, stop)
  pure_next s (event_here meta) = again (record {
    done = s.done ++ event_at s.offset meta ∷ [];
    offset = s.offset + meta.event_len;
    version_checked = true;
  })

  unfoldable pub pure_round : PureState → Round PureState (List FidEvent × ℕ × EventStop)
  pure_round s = pure_next s (verdict s.offset s.version_checked)

  pub pure_round_shrinks :
      (s s' : PureState) → pure_round s ≡ again s' → length buf - s'.offset < length buf - s.offset
  unfolding pure_round verdict pure_next
  pure_round_shrinks s s' h = ground arith

  unfoldable pub pure_walk : PureState → List FidEvent × ℕ × EventStop
  pure_walk = loop (λ s. length buf - s.offset) pure_round pure_round_shrinks

  pub pure_walk_lem : (s : PureState) → pure_walk s ≡ run_round pure_walk (pure_round s)
  unfolding pure_walk
  pure_walk_lem s = loop_lem (λ s. length buf - s.offset) pure_round pure_round_shrinks s
