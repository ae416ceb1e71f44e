-- ===== src/Fid/Wire/Payloads.antt =====
-- The payload readers of src/fid.rs give back what the kernel's layout writes.
use fanotify_fid.Base.{
  ℕ, ◌+◌, ◌-◌, ◌≤◌, ◌≡◌, refl, to_u32, to_i32-to_u32, to_u32_lt, [], ◌∷◌, ◌++◌, length, replicate,
  zero, suc, arith, some, length-append, le→leb, le→ltb_false,
}
use fanotify_fid.Bytes.{Bytes, Endian, to_ne_bytes}
use fanotify_fid.Bytes.Words.{length-to_ne_bytes}
use fanotify_fid.Bytes.Holds.{Holds, Holds-left, Holds-right, get_range-Holds, read_u32-word}
use fanotify_fid.Consts.{max_handle_sz}
use fanotify_fid.Fid.Event.{Fsid}
use fanotify_fid.Fid.Payload.{
  until_nul, read_fsid, read_file_handle, split_fsid_handle, split_fsid_handle_name,
}
use fanotify_fid.Fid.Wire.{FileHandle, wire_fsid, wire_handle, wire_named, IsFsid, IsHandle, IsName}

until_nul-append :
    (name : Bytes) (padding : ℕ) → IsName name → until_nul (name ++ replicate padding 0) ≡ name
unfolding until_nul
until_nul-append [] zero h = refl
until_nul-append [] (suc padding) h = refl
until_nul-append (b ∷ name) padding h = ground (arith, until_nul-append name padding h.1)

module _ (en : Endian) where
  pub length-wire_fsid : (f : Fsid) → length (wire_fsid en f) ≡ 8
  length-wire_fsid (a, b) = omega (
    arith,
    length-append (to_ne_bytes en 4 (to_u32 a)) (to_ne_bytes en 4 (to_u32 b)),
    length-to_ne_bytes en 4 (to_u32 a),
    length-to_ne_bytes en 4 (to_u32 b),
  )

  pub length-wire_handle : (h : FileHandle) → length (wire_handle en h) ≡ 8 + length h.handle_bytes
  length-wire_handle h = omega (
    arith,
    length-append (to_ne_bytes en 4 (length h.handle_bytes))
        (to_ne_bytes en 4 (to_u32 h.handle_type) ++ h.handle_bytes),
    length-append (to_ne_bytes en 4 (to_u32 h.handle_type)) h.handle_bytes,
    length-to_ne_bytes en 4 (length h.handle_bytes),
    length-to_ne_bytes en 4 (to_u32 h.handle_type),
  )

  module _ {buf : Bytes} {at : ℕ} (len : ℕ) where
    pub read_fsid-Holds :
        (f : Fsid)
        → IsFsid f
        → Holds buf at (wire_fsid en f)
        → 8 ≤ len
        → read_fsid en buf at len ≡ some f
    unfolding read_fsid
    read_fsid-Holds (a, b) v h l = rw (
      le→ltb_false len 8 l,
      read_u32-word en (to_u32 a) len (Holds-left first second h) (to_u32_lt a v.0) (omega arith),
      read_u32-word en (to_u32 b) (len - 4) at_second (to_u32_lt b v.1) (omega arith),
      to_i32-to_u32 a v.0,
      to_i32-to_u32 b v.1,
    )
      where
        first : Bytes
        first = to_ne_bytes en 4 (to_u32 a)

        second : Bytes
        second = to_ne_bytes en 4 (to_u32 b)

        at_second : Holds buf (at + 4) second
        at_second = rw (length-to_ne_bytes en 4 (to_u32 a)) at (Holds-right first second h)

    pub read_file_handle-Holds :
        (h : FileHandle)
        → IsHandle h
        → Holds buf at (wire_handle en h)
        → 8 + length h.handle_bytes ≤ len
        → read_file_handle en buf at len ≡ some (wire_handle en h)
    unfolding read_file_handle
    read_file_handle-Holds h v w l =
        rw
          (
            read_u32-word en count len (Holds-left (to_ne_bytes en 4 count) _ w) (omega arith)
                (omega arith),
            le→ltb_false max_handle_sz count v,
            le→ltb_false len (8 + count) l,
          )
          (get_range-Holds (wire_handle en h) (at + (8 + count)) w
            (omega (arith, length-wire_handle h)))
      where
        count : ℕ
        count = length h.handle_bytes

module _ (en : Endian) {buf : Bytes} {at : ℕ} (len : ℕ) where
  pub split_fsid_handle-Holds :
      (f : Fsid) (h : FileHandle)
      → IsFsid f
      → IsHandle h
      → Holds buf at (wire_fsid en f ++ wire_handle en h)
      → len ≡ length (wire_fsid en f ++ wire_handle en h)
      → split_fsid_handle en buf at len ≡ some (f, wire_handle en h)
  unfolding split_fsid_handle
  split_fsid_handle-Holds f h vf vh w l = rw (
    read_fsid-Holds en len f vf (Holds-left (wire_fsid en f) _ w) (omega (arith, size)),
    le→leb 8 len (omega (arith, size)),
    read_file_handle-Holds en (len - 8) h vh at_handle (omega (arith, size)),
  )
    where
      size : len ≡ 16 + length h.handle_bytes
      size = omega (
        arith,
        l,
        length-append (wire_fsid en f) (wire_handle en h),
        length-wire_fsid en f,
        length-wire_handle en h,
      )

      at_handle : Holds buf (at + 8) (wire_handle en h)
      at_handle = rw (length-wire_fsid en f) at (Holds-right (wire_fsid en f) (wire_handle en h) w)

  pub split_fsid_handle_name-Holds :
      (f : Fsid) (h : FileHandle) (name : Bytes) (padding : ℕ)
      → IsFsid f
      → IsHandle h
      → IsName name
      → Holds buf at (wire_named en f h name padding)
      → len ≡ length (wire_named en f h name padding)
      → split_fsid_handle_name en buf at len ≡ some (f, wire_handle en h, name)
  unfolding split_fsid_handle_name
  split_fsid_handle_name-Holds f h name padding vf vh vn w l = rw (
    read_fsid-Holds en len f vf (Holds-left (wire_fsid en f) _ w) (omega (arith, size)),
    le→leb 8 len (omega (arith, size)),
    read_file_handle-Holds en (len - 8) h vh (Holds-left (wire_handle en h) rest after_fsid)
        (omega (arith, size)),
    le→leb (8 + length (wire_handle en h)) len (omega (arith, size, length-wire_handle en h)),
    get_range-Holds rest
        (at + 8 + length (wire_handle en h) + (len - (8 + length (wire_handle en h))))
        (Holds-right (wire_handle en h) rest after_fsid)
        (omega (arith, size, length-wire_handle en h)),
    until_nul-append name padding vn,
  )
    where
      rest : Bytes
      rest = name ++ replicate padding 0

      size : len ≡ 16 + length h.handle_bytes + length rest
      size = omega (
        arith,
        l,
        length-append (wire_fsid en f) (wire_handle en h ++ rest),
        length-append (wire_handle en h) rest,
        length-wire_fsid en f,
        length-wire_handle en h,
      )

      after_fsid : Holds buf (at + 8) (wire_handle en h ++ rest)
      after_fsid =
          rw (length-wire_fsid en f) at (Holds-right (wire_fsid en f) (wire_handle en h ++ rest) w)
