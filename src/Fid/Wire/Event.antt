-- ===== src/Fid/Wire/Event.antt =====
-- A whole event in the kernel's layout: `struct fanotify_event_metadata` and its records.
use fanotify_fid.Base.{
  ℕ, ◌+◌, ◌^◌, ◌<◌, ◌≡◌, ℤ, pos, negsuc, zero, suc, to_u32, IsI32, to_i32-to_u32, to_u32_lt, List,
  [], ◌∷◌, ◌++◌, All, length, Option, none, some, arith, refl, ◌∙◌, subst, length-append,
}
use fanotify_fid.Bytes.{Bytes, Endian, to_ne_bytes, read_field}
use fanotify_fid.Bytes.Words.{length-to_ne_bytes}
use fanotify_fid.Bytes.Holds.{Holds, Holds-left, Holds-right, read_field-word, read_field-Holds}
use fanotify_fid.Consts.{metadata_size, fanotify_metadata_version}
use fanotify_fid.Fid.Event.{FidEvent, new}
use fanotify_fid.Fid.Records.{EventMetadata, read_metadata, begin_event}
use fanotify_fid.Fid.Wire.{Info, wire_records, IsInfo}
use fanotify_fid.Fid.Wire.RecordWalk.{absorb_all, from_ne_bytes_byte}

-- What an event says.
pub record Notice : Type 0 where
  pub mask : ℕ
  pub fd : ℤ
  pub pid : ℤ
  pub infos : List Info

-- The errno that the header's descriptor field carries: below -1 only.
abbrev pub errno_of_fd : ℤ → Option ℤ
errno_of_fd (pos n) = none
errno_of_fd (negsuc zero) = none
errno_of_fd (negsuc (suc n)) = some (negsuc (suc n))

module _ (en : Endian) where
  abbrev pub event_len : Notice → ℕ
  event_len n = metadata_size + length (wire_records en n.infos)

  -- The bytes of an event from each field of its header on.
  abbrev from_pid : Notice → Bytes
  from_pid n = to_ne_bytes en 4 (to_u32 n.pid) ++ wire_records en n.infos

  abbrev from_fd : Notice → Bytes
  from_fd n = to_ne_bytes en 4 (to_u32 n.fd) ++ from_pid n

  abbrev from_mask : Notice → Bytes
  from_mask n = to_ne_bytes en 8 n.mask ++ from_fd n

  abbrev from_metadata_len : Notice → Bytes
  from_metadata_len n = to_ne_bytes en 2 metadata_size ++ from_mask n

  abbrev from_reserved : Notice → Bytes
  from_reserved n = (0 ∷ []) ++ from_metadata_len n

  abbrev from_vers : Notice → Bytes
  from_vers n = (fanotify_metadata_version ∷ []) ++ from_reserved n

  abbrev pub wire_event : Notice → Bytes
  wire_event n = to_ne_bytes en 4 (event_len n) ++ from_vers n

  pub length-wire_event : (n : Notice) → length (wire_event n) ≡ event_len n
  length-wire_event n = omega (
    arith,
    length-append (to_ne_bytes en 4 (event_len n)) (from_vers n),
    length-append (to_ne_bytes en 2 metadata_size) (from_mask n),
    length-append (to_ne_bytes en 8 n.mask) (from_fd n),
    length-append (to_ne_bytes en 4 (to_u32 n.fd)) (from_pid n),
    length-append (to_ne_bytes en 4 (to_u32 n.pid)) (wire_records en n.infos),
    length-to_ne_bytes en 4 (event_len n),
    length-to_ne_bytes en 2 metadata_size,
    length-to_ne_bytes en 8 n.mask,
    length-to_ne_bytes en 4 (to_u32 n.fd),
    length-to_ne_bytes en 4 (to_u32 n.pid),
  )

  -- The event that a reader should have.
  unfoldable pub meaning : Notice → FidEvent
  meaning n =
      absorb_all en n.infos (record new { mask = n.mask; pid = n.pid; fd_error = errno_of_fd n.fd })

  pub record IsNotice (n : Notice) : Type 0 where
    pub mask_fits : n.mask < 2 ^ 64
    pub fd_fits : IsI32 n.fd
    pub pid_fits : IsI32 n.pid
    pub infos_fit : All (IsInfo en) n.infos
    pub len_fits : event_len n < 2 ^ 32

  unfoldable pub header_of : Notice → EventMetadata
  header_of n = record {
    event_len = event_len n;
    vers = fanotify_metadata_version;
    reserved = 0;
    metadata_len = metadata_size;
    mask = n.mask;
    fd = n.fd;
    pid = n.pid;
  }

  pub begin_event-header_of :
      (n : Notice)
      → begin_event (header_of n) new
        ≡ record new { mask = n.mask; pid = n.pid; fd_error = errno_of_fd n.fd }
  unfolding begin_event header_of
  begin_event-header_of n = ground arith

  module _ {buf : Bytes} {at : ℕ} (n : Notice) (v : IsNotice n)
      (w : Holds buf at (wire_event n)) where
    vers_Holds : Holds buf (at + 4) (from_vers n)
    vers_Holds =
        rw (length-to_ne_bytes en 4 (event_len n)) at
          (Holds-right (to_ne_bytes en 4 (event_len n)) (from_vers n) w)

    reserved_Holds : Holds buf (at + 5) (from_reserved n)
    reserved_Holds =
        subst (λ k. Holds buf k (from_reserved n)) (omega arith)
          (Holds-right (fanotify_metadata_version ∷ []) (from_reserved n) vers_Holds)

    metadata_len_Holds : Holds buf (at + 6) (from_metadata_len n)
    metadata_len_Holds =
        subst (λ k. Holds buf k (from_metadata_len n)) (omega arith)
          (Holds-right (0 ∷ []) (from_metadata_len n) reserved_Holds)

    mask_Holds : Holds buf (at + 8) (from_mask n)
    mask_Holds =
        subst (λ k. Holds buf k (from_mask n))
          (omega (arith, length-to_ne_bytes en 2 metadata_size))
          (Holds-right (to_ne_bytes en 2 metadata_size) (from_mask n) metadata_len_Holds)

    fd_Holds : Holds buf (at + 16) (from_fd n)
    fd_Holds =
        subst (λ k. Holds buf k (from_fd n)) (omega (arith, length-to_ne_bytes en 8 n.mask))
          (Holds-right (to_ne_bytes en 8 n.mask) (from_fd n) mask_Holds)

    pid_Holds : Holds buf (at + 20) (from_pid n)
    pid_Holds =
        subst (λ k. Holds buf k (from_pid n)) (omega (arith, length-to_ne_bytes en 4 (to_u32 n.fd)))
          (Holds-right (to_ne_bytes en 4 (to_u32 n.fd)) (from_pid n) fd_Holds)

    pub records_Holds : Holds buf (at + metadata_size) (wire_records en n.infos)
    records_Holds =
        subst (λ k. Holds buf k (wire_records en n.infos))
          (omega (arith, length-to_ne_bytes en 4 (to_u32 n.pid)))
          (Holds-right (to_ne_bytes en 4 (to_u32 n.pid)) (wire_records en n.infos) pid_Holds)

    -- The header is read field by field.
    pub read_metadata-wire : read_metadata en buf at ≡ header_of n
    unfolding read_metadata header_of
    read_metadata-wire = rw (
      read_field-word en 4 (event_len n)
          (Holds-left (to_ne_bytes en 4 (event_len n)) (from_vers n) w) v.len_fits,
      byte fanotify_metadata_version (from_reserved n) vers_Holds,
      byte 0 (from_metadata_len n) reserved_Holds,
      read_field-word en 2 metadata_size
          (Holds-left (to_ne_bytes en 2 metadata_size) (from_mask n) metadata_len_Holds)
          (omega arith),
      read_field-word en 8 n.mask (Holds-left (to_ne_bytes en 8 n.mask) (from_fd n) mask_Holds)
          v.mask_fits,
      read_field-word en 4 (to_u32 n.fd)
          (Holds-left (to_ne_bytes en 4 (to_u32 n.fd)) (from_pid n) fd_Holds)
          (to_u32_lt n.fd v.fd_fits),
      read_field-word en 4 (to_u32 n.pid)
          (Holds-left (to_ne_bytes en 4 (to_u32 n.pid)) (wire_records en n.infos) pid_Holds)
          (to_u32_lt n.pid v.pid_fits),
      to_i32-to_u32 n.fd v.fd_fits,
      to_i32-to_u32 n.pid v.pid_fits,
    )
      where
        byte : {k : ℕ} (b : ℕ) (rest : Bytes) → Holds buf k (b ∷ rest) → read_field en 1 buf k ≡ b
        byte b rest h =
            read_field-Holds en 1 (b ∷ []) (Holds-left (b ∷ []) rest h) refl
            ∙ from_ne_bytes_byte en b
