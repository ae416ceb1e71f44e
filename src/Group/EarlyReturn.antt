-- ===== src/Group/EarlyReturn.antt =====
-- src/group.rs: the early return of a read that got no bytes.
use fanotify_fid.Base.{◌≡◌, refl, [], ◌∷◌, arith}
use fanotify_fid.Bytes.{Bytes, Endian}
use fanotify_fid.Fid.Adopt.{adopt_pidfds}
use fanotify_fid.Fid.Walk.{parse_fid_events_into}
use fanotify_fid.Fid.Wire.RoundTrip.{parse-wire_events}
use fanotify_fid.Group.Stateless.{nothing_read, adopt_batch, parse_batch}

parse_empty : (en : Endian) → parse_fid_events_into en [] [] ≡ ([], nothing_read)
unfolding nothing_read
parse_empty en = parse-wire_events en [] [] [] tt (omega arith)

-- The early return changes nothing: a buffer with no byte is read as the walk and the adoption would
-- read it.
pub parse_batch_lem :
    (en : Endian) (buf : Bytes) → parse_batch en buf ≡ adopt_batch (parse_fid_events_into en buf [])
unfolding parse_batch
parse_batch_lem en [] = unfold adopt_batch adopt_pidfds in rw (parse_empty en) refl
parse_batch_lem en (b ∷ bs) = ground arith
