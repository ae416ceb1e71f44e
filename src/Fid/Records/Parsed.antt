-- ===== src/Fid/Records/Parsed.antt =====
-- What holds of every event that the record walk makes: its handles can be handed to
-- `open_by_handle_at`, they come with their filesystem, and it owns and resolves nothing.
use fanotify_fid.Base.{
  ℕ, ◌+◌, ◌-◌, ◌≤◌, ◌≡◌, not, Bool, true, false, ◌||◌, Option, none, some, leb, ltb, ◌==◌,
  if◌then◌else◌, arith, Round, again, leave, loop_inv, length, drop, is_some, length-take,
  length-drop, Option-cases, inl, inr,
}
use mathlib.Core.Option
use fanotify_fid.Bytes.{Bytes, Endian, get_range, read_u32}
use fanotify_fid.Consts.InfoType
use fanotify_fid.Consts.{info_header_size, file_handle_header_size, max_file_handle_size}
use fanotify_fid.Fid.Event.{FidEvent, Fsid, RenameSide, Pidfd, fd, preserve, new}
use fanotify_fid.Fid.Payload.{read_file_handle, split_fsid_handle, split_fsid_handle_name}
use fanotify_fid.Fid.Records.{
  Located, Cursor, EventMetadata, keep_record, apply_dfid_name, apply_fid, apply_old_dfid_name,
  apply_new_dfid_name, apply_pidfd, apply_error, apply_range, apply_mnt, apply_record, record_round,
  record_round_shrinks, parse_records, begin_event, parse_one_event, read_info_header, InfoHeader,
}

abbrev pub NotOwned : Pidfd → Type 0
NotOwned (fd n) = ⊥
NotOwned _ = Unit

abbrev pub FitsHandle : Bytes → Type 0
FitsHandle h = (file_handle_header_size ≤ length h) × (length h ≤ max_file_handle_size)

abbrev pub FitsHandle? : Option Bytes → Type 0
FitsHandle? none = Unit
FitsHandle? (some h) = FitsHandle h

abbrev pub FitsSide? : Option RenameSide → Type 0
FitsSide? none = Unit
FitsSide? (some s) = FitsHandle s.handle

abbrev pub has_handle : FidEvent → Bool
has_handle e =
    is_some e.self_handle
    || is_some e.dfid_name_handle
    || is_some e.rename_source
    || is_some e.rename_target

pub record IsParsed (e : FidEvent) : Type 0 where
  pub unowned : NotOwned e.pidfd
  pub unresolved : e.path ≡ none
  pub named : is_some e.dfid_name_handle ≡ is_some e.dfid_name_name
  pub identified : (not (has_handle e) || is_some e.fsid) ≡ true
  pub self_fits : FitsHandle? e.self_handle
  pub dfid_name_fits : FitsHandle? e.dfid_name_handle
  pub source_fits : FitsSide? e.rename_source
  pub target_fits : FitsSide? e.rename_target

choose : (b : Bool) {x y : FidEvent} → IsParsed x → IsParsed y → IsParsed (if b then x else y)
choose true hx hy = hx
choose false hx hy = hy

new-IsParsed : IsParsed new
unfolding new
new-IsParsed = ground arith

length-get_range :
    (buf : Bytes) (from to : ℕ) {bs : Bytes}
    → get_range buf from to ≡ some bs
    → length bs ≡ to - from
unfolding get_range
length-get_range buf from to h =
    ground (arith, length-take (to - from) (drop from buf), length-drop from buf)

module _ (en : Endian) (buf : Bytes) where
  read_file_handle-FitsHandle :
      (at len : ℕ) {h : Bytes} → read_file_handle en buf at len ≡ some h → FitsHandle h
  unfolding read_file_handle
  read_file_handle-FitsHandle at len {h} e = elim (Option-cases (read_u32 en buf at len)) [
    | inl n ↦ absurd (ground arith)
    | inr (count, s) ↦
        ground (arith, length-get_range buf at (at + (file_handle_header_size + count)) {bs = h})
  ]

  split_fsid_handle-FitsHandle :
      (at len : ℕ) {f : Fsid} {h : Bytes}
      → split_fsid_handle en buf at len ≡ some (f, h)
      → FitsHandle h
  unfolding split_fsid_handle
  split_fsid_handle-FitsHandle at len {h = h} e =
      ground (arith, read_file_handle-FitsHandle (at + 8) (len - 8) {h = h})

  split_fsid_handle_name-FitsHandle :
      (at len : ℕ) {f : Fsid} {h name : Bytes}
      → split_fsid_handle_name en buf at len ≡ some (f, h, name)
      → FitsHandle h
  unfolding split_fsid_handle_name
  split_fsid_handle_name-FitsHandle at len {h = h} e =
      ground (arith, read_file_handle-FitsHandle (at + 8) (len - 8) {h = h})

  split_fsid_handle-fits :
      (at len : ℕ) → FitsHandle? (Option.map (λ p. p.1) (split_fsid_handle en buf at len))
  split_fsid_handle-fits at len = elim (Option-cases (split_fsid_handle en buf at len)) [
    | inl n ↦ rw n tt
    | inr (p, s) ↦ rw s (split_fsid_handle-FitsHandle at len {f = p.0} {h = p.1} s)
  ]

  split_fsid_handle_name-fits :
      (at len : ℕ) → FitsHandle? (Option.map (λ p. p.1) (split_fsid_handle_name en buf at len))
  split_fsid_handle_name-fits at len = elim (Option-cases (split_fsid_handle_name en buf at len)) [
    | inl n ↦ rw n tt
    | inr (p, s) ↦
        rw s (split_fsid_handle_name-FitsHandle at len {f = p.0} {h = p.1} {name = p.2} s)
  ]

  module _ (r : Located) {e : FidEvent} (p : IsParsed e) where
    dfid_name-IsParsed : IsParsed (apply_dfid_name en buf r e)
    unfolding apply_dfid_name preserve
    dfid_name-IsParsed = ground (arith, split_fsid_handle_name-fits r.payload_at r.payload_len)

    fid-IsParsed : IsParsed (apply_fid en buf r e)
    unfolding apply_fid preserve
    fid-IsParsed = ground (arith, split_fsid_handle-fits r.payload_at r.payload_len)

    old_dfid_name-IsParsed : IsParsed (apply_old_dfid_name en buf r e)
    unfolding apply_old_dfid_name preserve
    old_dfid_name-IsParsed = ground (arith, split_fsid_handle_name-fits r.payload_at r.payload_len)

    new_dfid_name-IsParsed : IsParsed (apply_new_dfid_name en buf r e)
    unfolding apply_new_dfid_name preserve
    new_dfid_name-IsParsed = ground (arith, split_fsid_handle_name-fits r.payload_at r.payload_len)

    pidfd-IsParsed : IsParsed (apply_pidfd en buf r e)
    unfolding apply_pidfd preserve
    pidfd-IsParsed = ground arith

    error-IsParsed : IsParsed (apply_error en buf r e)
    unfolding apply_error preserve
    error-IsParsed = ground arith

    range-IsParsed : IsParsed (apply_range en buf r e)
    unfolding apply_range preserve
    range-IsParsed = ground arith

    mnt-IsParsed : IsParsed (apply_mnt en buf r e)
    unfolding apply_mnt preserve
    mnt-IsParsed = ground arith

    keep_record-IsParsed : IsParsed (keep_record buf r e)
    unfolding preserve
    keep_record-IsParsed = ground arith

    apply_record-IsParsed : IsParsed (apply_record en buf r e)
    unfolding apply_record
    apply_record-IsParsed = choose (r.info_type == InfoType.dfid_name) dfid_name-IsParsed (
        choose (r.info_type == InfoType.fid || r.info_type == InfoType.dfid) fid-IsParsed (
          choose (r.info_type == InfoType.old_dfid_name) old_dfid_name-IsParsed (
            choose (r.info_type == InfoType.new_dfid_name) new_dfid_name-IsParsed (
              choose (r.info_type == InfoType.pidfd) pidfd-IsParsed (
                choose (r.info_type == InfoType.error) error-IsParsed (
                  choose (r.info_type == InfoType.range) range-IsParsed
                    (choose (r.info_type == InfoType.mnt) mnt-IsParsed keep_record-IsParsed)))))))

  abbrev Goes : Cursor → Type 0
  Goes c = IsParsed c.event

  abbrev GoesOn : Round Cursor FidEvent → Type 0
  GoesOn (again c) = Goes c
  GoesOn (leave e) = IsParsed e

  choose_round :
      (b : Bool) (x y : Round Cursor FidEvent) → GoesOn x → GoesOn y → GoesOn (if b then x else y)
  choose_round true x y hx hy = hx
  choose_round false x y hx hy = hy

  record_round-IsParsed :
      (event_end : ℕ) (c : Cursor) → Goes c → GoesOn (record_round en buf event_end c)
  unfolding record_round
  record_round-IsParsed event_end c p =
      choose_round (leb (c.header_at + info_header_size) event_end) _ _
        (choose_round (ltb header.len info_header_size || ltb (event_end - c.header_at) header.len)
          _ _
          (keep_record-IsParsed
            (record {
              info_type = header.info_type;
              header_at = c.header_at;
              record_end = event_end;
              payload_at = 0;
              payload_len = 0;
            })
            p)
          (apply_record-IsParsed _ p))
        p
    where
      header : InfoHeader
      header = read_info_header en buf c.header_at

  parse_records-IsParsed :
      (event_end : ℕ) (c : Cursor) → IsParsed c.event → IsParsed (parse_records en buf event_end c)
  unfolding parse_records
  parse_records-IsParsed event_end =
      loop_inv _ (record_round en buf event_end) (record_round_shrinks en buf event_end) {P = Goes}
        {Q = IsParsed} (λ c c' p r. rw r at (record_round-IsParsed event_end c p))
        (λ c e p r. rw r at (record_round-IsParsed event_end c p))

  begin_event-IsParsed : (meta : EventMetadata) → IsParsed (begin_event meta new)
  unfolding begin_event
  begin_event-IsParsed meta = let p = new-IsParsed in ground arith

  pub parse_one_event-IsParsed :
      (event_start event_len records_start : ℕ) (meta : EventMetadata)
      → IsParsed (parse_one_event en buf new event_start event_len records_start meta)
  unfolding parse_one_event
  parse_one_event-IsParsed event_start event_len records_start meta =
      parse_records-IsParsed (event_start + event_len) _ (begin_event-IsParsed meta)
