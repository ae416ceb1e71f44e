-- ===== src/Fid/Wire/RecordWalk.antt =====
-- The record walk over records of the layout puts all that they say on the event.
use fanotify_fid.Base.{
  ℕ, ◌+◌, ◌-◌, ◌≤◌, ◌≡◌, refl, ◌∙◌, List, [], ◌∷◌, length, All, arith, length-append, le→leb, again,
  le→ltb_false, loop_again, loop_leave, lt→leb_false,
}
use fanotify_fid.Bytes.{
  Bytes, Endian, to_ne_bytes, little, big, from_ne_bytes, read_field, le_value,
}
use fanotify_fid.Bytes.Holds.{Holds, Holds-left, Holds-right, read_field-word, read_field-Holds}
use fanotify_fid.Consts.{info_header_size}
use fanotify_fid.Fid.Event.{FidEvent}
use fanotify_fid.Fid.Records.{record_round, record_round_shrinks, read_info_header, parse_records}
use fanotify_fid.Fid.Wire.{Info, info_type_of, record_len, wire_record, wire_records, IsInfo}
use fanotify_fid.Fid.Wire.Absorb.{absorb, length-wire_record, apply_record-absorb}

-- One byte is its own value in either order.
pub from_ne_bytes_byte : (en : Endian) (b : ℕ) → from_ne_bytes en (b ∷ []) ≡ b
unfolding from_ne_bytes le_value
from_ne_bytes_byte little b = omega arith
from_ne_bytes_byte big b = omega arith

module _ (en : Endian) where
  unfoldable pub absorb_all : List Info → FidEvent → FidEvent
  absorb_all [] e = e
  absorb_all (i ∷ is) e = absorb_all is (absorb en i e)

  module _ (buf : Bytes) (event_end : ℕ) where
    record_round-wire :
        (i : Info) (at : ℕ) (e : FidEvent)
        → IsInfo en i
        → Holds buf at (wire_record en i)
        → at + record_len en i ≤ event_end
        → record_round en buf event_end (record { event = e; header_at = at })
          ≡ again (record { event = absorb en i e; header_at = at + record_len en i })
    unfolding record_round read_info_header
    record_round-wire i at e v w fits = rw (
      at_type,
      at_len,
      le→leb (at + info_header_size) event_end (omega arith),
      le→ltb_false (record_len en i) info_header_size (omega arith),
      le→ltb_false (event_end - at) (record_len en i) (omega arith),
      apply_record-absorb en e i v.0 w,
    )
      where
        at_type : read_field en 1 buf at ≡ info_type_of i
        at_type =
            read_field-Holds en 1 (info_type_of i ∷ []) (Holds-left (info_type_of i ∷ []) _ w) refl
            ∙ from_ne_bytes_byte en (info_type_of i)

        at_len : read_field en 2 buf (at + 2) ≡ record_len en i
        at_len =
            read_field-word en 2 (record_len en i)
              (Holds-left (to_ne_bytes en 2 (record_len en i)) _
                (Holds-right (info_type_of i ∷ 0 ∷ []) _ w))
              v.1

    pub parse_records-wire :
        (is : List Info) (at : ℕ) (e : FidEvent)
        → All (IsInfo en) is
        → Holds buf at (wire_records en is)
        → event_end ≡ at + length (wire_records en is)
        → parse_records en buf event_end (record { event = e; header_at = at }) ≡ absorb_all is e
    unfolding parse_records absorb_all
    parse_records-wire [] at e v w at_end =
        loop_leave _ (record_round en buf event_end) (record_round_shrinks en buf event_end)
          (unfold record_round in rw (lt→leb_false (at + info_header_size) event_end (omega arith)))
    parse_records-wire (i ∷ is) at e v w at_end =
        loop_again _ (record_round en buf event_end) (record_round_shrinks en buf event_end)
          (record_round-wire i at e v.0 (Holds-left (wire_record en i) _ w) (omega (arith, size)))
        ∙ parse_records-wire is (at + record_len en i) (absorb en i e) v.1 rest
            (omega (arith, size))
      where
        size : length (wire_records en (i ∷ is)) ≡ record_len en i + length (wire_records en is)
        size =
            omega (
              arith,
              length-append (wire_record en i) (wire_records en is),
              length-wire_record en i,
            )

        rest : Holds buf (at + record_len en i) (wire_records en is)
        rest =
            rw (length-wire_record en i) at (Holds-right (wire_record en i) (wire_records en is) w)
