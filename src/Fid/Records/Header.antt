-- ===== src/Fid/Records/Header.antt =====
-- The record walk leaves what the header put on the event.
use fanotify_fid.Base.{ℕ, ◌+◌, ◌-◌, ◌≡◌, refl, ◌∙◌, ℤ, Option, arith, again, leave, loop_inv}
use fanotify_fid.Bytes.{Bytes, Endian}
use fanotify_fid.Consts.{info_header_size}
use fanotify_fid.Fid.Event.{FidEvent, preserve}
use fanotify_fid.Fid.Records.{
  Located, Cursor, EventMetadata, apply_dfid_name, apply_fid, apply_old_dfid_name,
  apply_new_dfid_name, apply_pidfd, apply_error, apply_range, apply_mnt, apply_record, record_round,
  record_round_shrinks, parse_records, begin_event, parse_one_event, read_info_header,
}

-- What the header says.
abbrev pub header_facts : FidEvent → ℕ × ℤ × Option ℤ
header_facts e = (e.mask, e.pid, e.fd_error)

module _ (en : Endian) (buf : Bytes) where
  apply_record-header :
      (r : Located) (e : FidEvent) → header_facts (apply_record en buf r e) ≡ header_facts e
  unfolding apply_record apply_dfid_name apply_fid apply_old_dfid_name apply_new_dfid_name
      apply_pidfd apply_error apply_range apply_mnt preserve
  apply_record-header r e = ground arith

  -- The record that a round of the walk reads.
  abbrev located_at : Cursor → Located
  located_at c =
      let header = read_info_header en buf c.header_at in
      record {
        info_type = header.info_type;
        header_at = c.header_at;
        record_end = c.header_at + header.len;
        payload_at = c.header_at + info_header_size;
        payload_len = header.len - info_header_size;
      }

  again-header :
      (event_end : ℕ) (c c' : Cursor)
      → record_round en buf event_end c ≡ again c'
      → header_facts c'.event ≡ header_facts c.event
  unfolding record_round
  again-header event_end c c' r = ground (arith, apply_record-header (located_at c) c.event)

  leave-header :
      (event_end : ℕ) (c : Cursor) (e : FidEvent)
      → record_round en buf event_end c ≡ leave e
      → header_facts e ≡ header_facts c.event
  unfolding record_round preserve
  leave-header event_end c e r = ground arith

  parse_records-header :
      (event_end : ℕ) (c : Cursor)
      → header_facts (parse_records en buf event_end c) ≡ header_facts c.event
  unfolding parse_records
  parse_records-header event_end c =
      loop_inv _ (record_round en buf event_end) (record_round_shrinks en buf event_end)
        {P = λ d. header_facts d.event ≡ header_facts c.event}
        {Q = λ e. header_facts e ≡ header_facts c.event}
        (λ d d' h r. again-header event_end d d' r ∙ h)
        (λ d e h r. leave-header event_end d e r ∙ h) c refl

  pub parse_one_event-header :
      (e : FidEvent) (event_start event_len records_start : ℕ) (meta : EventMetadata)
      → header_facts (parse_one_event en buf e event_start event_len records_start meta)
        ≡ header_facts (begin_event meta e)
  unfolding parse_one_event
  parse_one_event-header e event_start event_len records_start meta =
      parse_records-header (event_start + event_len) _
