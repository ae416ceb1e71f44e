-- ===== src/Fid/Wire/Absorb.antt =====
-- A record of the kernel's layout, read by the record walk, puts on the event what it says.
use fanotify_fid.Base.{
  ℕ, ◌+◌, ◌-◌, ◌≡◌, refl, ◌∙◌, ℤ, to_u32, to_i32-to_u32, to_u32_lt, [], ◌∷◌, ◌++◌, length, arith,
  some, none, length-append, or_else, take, drop, length-take, length-drop, ◌≤◌,
}
use fanotify_fid.Bytes.{Bytes, Endian, to_ne_bytes, from_ne_bytes, read_u64}
use fanotify_fid.Bytes.Words.{length-to_ne_bytes}
use fanotify_fid.Bytes.Holds.{
  Holds, Holds-left, Holds-right, get_range-Holds, read_u32-word, read_u64-Holds, Holds-take,
  Holds-drop,
}
use fanotify_fid.Consts.{info_header_size}
use fanotify_fid.Fid.Event.{FidEvent, Fsid, missing, unavailable, preserve, pidfd_is_absent}
use fanotify_fid.Fid.Records.{
  Located, keep_record, apply_dfid_name, apply_fid, apply_old_dfid_name, apply_new_dfid_name,
  apply_pidfd, apply_error, apply_range, apply_mnt, apply_record,
}
use fanotify_fid.Fid.Wire.{
  FileHandle, Info, fid, dfid, dfid_name, old_dfid_name, new_dfid_name, pidfd, error, range, mnt,
  other, info_type_of, wire_handle, wire_payload, record_len, wire_record, IsUnknown, HasFields,
}
use fanotify_fid.Fid.Wire.Payloads.{split_fsid_handle-Holds, split_fsid_handle_name-Holds}

module _ (en : Endian) where
  -- The record as it is, among those without a field of their own.
  unfoldable pub put_aside : Info → FidEvent → FidEvent
  put_aside i e = record e {
    unknown_info_records = e.unknown_info_records ++ (info_type_of i, wire_record en i) ∷ [];
  }

  -- The eight bytes of a record's payload from the `k`th on, as a number.
  unfoldable pub word_at : Info → ℕ → ℕ
  word_at i k = from_ne_bytes en (take 8 (drop k (wire_payload en i)))

  -- What a record says, put on an event. The first name and the first pidfd win; the first fsid
  -- stays; a record of a type without a field is put aside. The words of RANGE and MNT are taken
  -- four bytes in front of where the kernel writes them: the padding is read as half of the first.
  unfoldable pub absorb : Info → FidEvent → FidEvent
  absorb (fid f h) e = record e {
    fsid = or_else e.fsid (some f);
    self_handle = some (wire_handle en h);
  }
  absorb (dfid f h) e = record e {
    fsid = or_else e.fsid (some f);
    self_handle = some (wire_handle en h);
  }
  absorb (dfid_name f h name padding) e = elim e.dfid_name_name [
    | none ↦ record e {
      fsid = or_else e.fsid (some f);
      dfid_name_handle = some (wire_handle en h);
      dfid_name_name = some name;
    }
    | some _ ↦ put_aside (dfid_name f h name padding) e
  ]
  absorb (old_dfid_name f h name padding) e = record e {
    fsid = or_else e.fsid (some f);
    rename_source = some (record { handle = wire_handle en h; name = name });
  }
  absorb (new_dfid_name f h name padding) e = record e {
    fsid = or_else e.fsid (some f);
    rename_target = some (record { handle = wire_handle en h; name = name });
  }
  absorb (pidfd n) e = elim e.pidfd [
    | missing ↦ record e { pidfd = unavailable n }
    | _ ↦ put_aside (pidfd n) e
  ]
  absorb (error err count) e = record e { fs_error = some (err, count) }
  absorb (range offset count) e = record e {
    access_range = some (word_at (range offset count) 0, word_at (range offset count) 8);
  }
  absorb (mnt id) e = record e { mnt_id = some (word_at (mnt id) 0) }
  absorb (other t bs) e = put_aside (other t bs) e

  -- Where a record of the walk stands.
  abbrev pub located : ℕ → Info → Located
  located at i = record {
    info_type = info_type_of i;
    header_at = at;
    record_end = at + record_len en i;
    payload_at = at + info_header_size;
    payload_len = record_len en i - info_header_size;
  }

  pub length-wire_record : (i : Info) → length (wire_record en i) ≡ record_len en i
  length-wire_record i = omega (
    arith,
    length-append (info_type_of i ∷ 0 ∷ [])
        (to_ne_bytes en 2 (record_len en i) ++ wire_payload en i),
    length-append (to_ne_bytes en 2 (record_len en i)) (wire_payload en i),
    length-to_ne_bytes en 2 (record_len en i),
  )

  unknown-keep_record :
      (buf : Bytes) (r : Located) (e : FidEvent)
      → IsUnknown r.info_type
      → apply_record en buf r e ≡ keep_record buf r e
  unfolding apply_record
  unknown-keep_record buf r e u = ground arith

  module _ {buf : Bytes} {at : ℕ} where
    after_type :
        (i : Info)
        → Holds buf at (wire_record en i)
        → Holds buf (at + 2) (to_ne_bytes en 2 (record_len en i) ++ wire_payload en i)
    after_type i w = Holds-right (info_type_of i ∷ 0 ∷ []) _ w

    pub payload-Holds :
        (i : Info)
        → Holds buf at (wire_record en i)
        → Holds buf (at + info_header_size) (wire_payload en i)
    payload-Holds i w =
        rw moved at (Holds-right (to_ne_bytes en 2 (record_len en i)) _ (after_type i w))
      where
        moved : at + 2 + length (to_ne_bytes en 2 (record_len en i)) ≡ at + info_header_size
        moved = omega (arith, length-to_ne_bytes en 2 (record_len en i))

    keep_record-put_aside :
        (i : Info) (e : FidEvent)
        → Holds buf at (wire_record en i)
        → keep_record buf (located at i) e ≡ put_aside i e
    unfolding preserve put_aside
    keep_record-put_aside i e w = rw (
        get_range-Holds (wire_record en i) (at + record_len en i) w
          (omega (arith, length-wire_record i)))

    -- Each type of record, by its own reader.
    module _ (e : FidEvent) where
      dfid_name-absorb :
          (f : Fsid) (h : FileHandle) (name : Bytes) (padding : ℕ)
          → HasFields (dfid_name f h name padding)
          → Holds buf at (wire_record en (dfid_name f h name padding))
          → apply_dfid_name en buf (located at (dfid_name f h name padding)) e
            ≡ absorb (dfid_name f h name padding) e
      unfolding apply_dfid_name absorb
      dfid_name-absorb f h name padding v w = ground (
        arith,
        keep_record-put_aside (dfid_name f h name padding) e w,
        split_fsid_handle_name-Holds en
            (record_len en (dfid_name f h name padding) - info_header_size) f h name padding v.0 v.1
            v.2 (payload-Holds (dfid_name f h name padding) w) (omega arith),
      )

      fid-absorb :
          (f : Fsid) (h : FileHandle)
          → HasFields (fid f h)
          → Holds buf at (wire_record en (fid f h))
          → apply_fid en buf (located at (fid f h)) e ≡ absorb (fid f h) e
      unfolding apply_fid absorb
      fid-absorb f h v w = ground (
        arith,
        split_fsid_handle-Holds en (record_len en (fid f h) - info_header_size) f h v.0 v.1
            (payload-Holds (fid f h) w) (omega arith),
      )

      dfid-absorb :
          (f : Fsid) (h : FileHandle)
          → HasFields (dfid f h)
          → Holds buf at (wire_record en (dfid f h))
          → apply_fid en buf (located at (dfid f h)) e ≡ absorb (dfid f h) e
      unfolding apply_fid absorb
      dfid-absorb f h v w = ground (
        arith,
        split_fsid_handle-Holds en (record_len en (dfid f h) - info_header_size) f h v.0 v.1
            (payload-Holds (dfid f h) w) (omega arith),
      )

      old_dfid_name-absorb :
          (f : Fsid) (h : FileHandle) (name : Bytes) (padding : ℕ)
          → HasFields (old_dfid_name f h name padding)
          → Holds buf at (wire_record en (old_dfid_name f h name padding))
          → apply_old_dfid_name en buf (located at (old_dfid_name f h name padding)) e
            ≡ absorb (old_dfid_name f h name padding) e
      unfolding apply_old_dfid_name absorb
      old_dfid_name-absorb f h name padding v w = ground (
        arith,
        split_fsid_handle_name-Holds en
            (record_len en (old_dfid_name f h name padding) - info_header_size) f h name padding v.0
            v.1 v.2 (payload-Holds (old_dfid_name f h name padding) w) (omega arith),
      )

      new_dfid_name-absorb :
          (f : Fsid) (h : FileHandle) (name : Bytes) (padding : ℕ)
          → HasFields (new_dfid_name f h name padding)
          → Holds buf at (wire_record en (new_dfid_name f h name padding))
          → apply_new_dfid_name en buf (located at (new_dfid_name f h name padding)) e
            ≡ absorb (new_dfid_name f h name padding) e
      unfolding apply_new_dfid_name absorb
      new_dfid_name-absorb f h name padding v w = ground (
        arith,
        split_fsid_handle_name-Holds en
            (record_len en (new_dfid_name f h name padding) - info_header_size) f h name padding v.0
            v.1 v.2 (payload-Holds (new_dfid_name f h name padding) w) (omega arith),
      )

      pidfd-absorb :
          (n : ℤ)
          → HasFields (pidfd n)
          → Holds buf at (wire_record en (pidfd n))
          → apply_pidfd en buf (located at (pidfd n)) e ≡ absorb (pidfd n) e
      unfolding apply_pidfd absorb pidfd_is_absent
      pidfd-absorb n v w = ground (
        arith,
        keep_record-put_aside (pidfd n) e w,
        read_u32-word en (to_u32 n) (record_len en (pidfd n) - info_header_size)
            (payload-Holds (pidfd n) w) (to_u32_lt n v)
            (omega (arith, length-to_ne_bytes en 4 (to_u32 n))),
        to_i32-to_u32 n v,
      )

      error-absorb :
          (err : ℤ) (count : ℕ)
          → HasFields (error err count)
          → Holds buf at (wire_record en (error err count))
          → apply_error en buf (located at (error err count)) e ≡ absorb (error err count) e
      unfolding apply_error absorb
      error-absorb err count v w = ground (
        arith,
        read_u32-word en (to_u32 err) len (Holds-left first second words) (to_u32_lt err v.0)
            (omega (arith, size)),
        read_u32-word en count (len - 4) at_second v.1 (omega (arith, size)),
        to_i32-to_u32 err v.0,
      )
        where
          len : ℕ
          len = record_len en (error err count) - info_header_size

          first : Bytes
          first = to_ne_bytes en 4 (to_u32 err)

          second : Bytes
          second = to_ne_bytes en 4 count

          words : Holds buf (at + info_header_size) (first ++ second)
          words = payload-Holds (error err count) w

          size : len ≡ 8
          size = omega (
            arith,
            length-append first second,
            length-to_ne_bytes en 4 (to_u32 err),
            length-to_ne_bytes en 4 count,
          )

          at_second : Holds buf (at + info_header_size + 4) second
          at_second = rw (length-to_ne_bytes en 4 (to_u32 err)) at (Holds-right first second words)

      -- Where the parser takes a word of eight bytes from.
      read_u64-word_at :
          (i : Info) (k len : ℕ)
          → k + 8 ≤ length (wire_payload en i)
          → 8 ≤ len
          → Holds buf at (wire_record en i)
          → read_u64 en buf (at + info_header_size + k) len ≡ some (word_at i k)
      unfolding word_at
      read_u64-word_at i k len fits l w =
          read_u64-Holds en (take 8 (drop k (wire_payload en i))) len
            (Holds-take 8 (drop k (wire_payload en i))
              (omega (arith, length-drop k (wire_payload en i)))
              (Holds-drop k (wire_payload en i) (omega arith) (payload-Holds i w)))
            (omega (
              arith,
              length-drop k (wire_payload en i),
              length-take 8 (drop k (wire_payload en i)),
            ))
            l

      range-absorb :
          (offset count : ℕ)
          → Holds buf at (wire_record en (range offset count))
          → apply_range en buf (located at (range offset count)) e ≡ absorb (range offset count) e
      unfolding apply_range absorb
      range-absorb offset count w = ground (
        arith,
        read_u64-word_at (range offset count) 0 len (omega (arith, size)) (omega (arith, size)) w,
        read_u64-word_at (range offset count) 8 (len - 8) (omega (arith, size))
            (omega (arith, size)) w,
      )
        where
          len : ℕ
          len = record_len en (range offset count) - info_header_size

          size : length (wire_payload en (range offset count)) ≡ 20
          size = omega (
            arith,
            length-append (to_ne_bytes en 8 offset) (to_ne_bytes en 8 count),
            length-to_ne_bytes en 8 offset,
            length-to_ne_bytes en 8 count,
          )

      mnt-absorb :
          (id : ℕ)
          → Holds buf at (wire_record en (mnt id))
          → apply_mnt en buf (located at (mnt id)) e ≡ absorb (mnt id) e
      unfolding apply_mnt absorb
      mnt-absorb id w = ground (
        arith,
        read_u64-word_at (mnt id) 0 (record_len en (mnt id) - info_header_size)
            (omega (arith, length-to_ne_bytes en 8 id)) (omega (arith, length-to_ne_bytes en 8 id))
            w,
      )

      -- The dispatch on the type.
      pub apply_record-absorb :
          (i : Info)
          → HasFields i
          → Holds buf at (wire_record en i)
          → apply_record en buf (located at i) e ≡ absorb i e
      unfolding apply_record
      apply_record-absorb (fid f h) v w = fid-absorb f h v w
      apply_record-absorb (dfid f h) v w = dfid-absorb f h v w
      apply_record-absorb (dfid_name f h name padding) v w = dfid_name-absorb f h name padding v w
      apply_record-absorb (old_dfid_name f h name padding) v w =
          old_dfid_name-absorb f h name padding v w
      apply_record-absorb (new_dfid_name f h name padding) v w =
          new_dfid_name-absorb f h name padding v w
      apply_record-absorb (pidfd n) v w = pidfd-absorb n v w
      apply_record-absorb (error err count) v w = error-absorb err count v w
      apply_record-absorb (range offset count) v w = range-absorb offset count w
      apply_record-absorb (mnt id) v w = mnt-absorb id w
      apply_record-absorb (other t bs) v w =
          unknown-keep_record buf (located at (other t bs)) e v
          ∙ keep_record-put_aside (other t bs) e w
          ∙ (unfold absorb in refl)
