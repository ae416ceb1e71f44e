-- ===== src/Fid/Wire.antt =====
-- The layout of the kernel's records, written as a function from what a record says to its bytes:
-- the one that the head of src/fid.rs draws, and with the four bytes of padding that the kernel's
-- structs have in front of the words of eight bytes of RANGE and MNT, which the drawing leaves out.
-- Nothing here is used by the parser.
pub mod Payloads
pub mod Absorb
pub mod RecordWalk
pub mod Event
pub mod RoundTrip
use fanotify_fid.Base.{
  ℕ, ◌+◌, ◌*◌, ◌^◌, ◌≤◌, ◌<◌, ◌≢◌, ℤ, to_u32, IsI32, List, [], ◌∷◌, ◌++◌, length, replicate, All,
}
use fanotify_fid.Bytes.{Bytes, Endian, to_ne_bytes}
use fanotify_fid.Consts.{info_header_size, max_handle_sz}
use fanotify_fid.Consts.InfoType
use fanotify_fid.Fid.Event.{Fsid}

-- `struct file_handle`
pub record FileHandle : Type 0 where
  pub handle_type : ℤ
  pub handle_bytes : Bytes

-- What a record says. A name is followed by `padding` NUL bytes.
pub data Info : Type 0 where
  fid : Fsid → FileHandle → Info
  dfid : Fsid → FileHandle → Info
  dfid_name : Fsid → FileHandle → (name : Bytes) (padding : ℕ) → Info
  old_dfid_name : Fsid → FileHandle → (name : Bytes) (padding : ℕ) → Info
  new_dfid_name : Fsid → FileHandle → (name : Bytes) (padding : ℕ) → Info
  pidfd : ℤ → Info
  error : ℤ → ℕ → Info
  range : ℕ → ℕ → Info
  mnt : ℕ → Info
  other : (info_type : ℕ) → Bytes → Info

abbrev pub info_type_of : Info → ℕ
info_type_of (fid f h) = InfoType.fid
info_type_of (dfid f h) = InfoType.dfid
info_type_of (dfid_name f h n p) = InfoType.dfid_name
info_type_of (old_dfid_name f h n p) = InfoType.old_dfid_name
info_type_of (new_dfid_name f h n p) = InfoType.new_dfid_name
info_type_of (pidfd n) = InfoType.pidfd
info_type_of (error e n) = InfoType.error
info_type_of (range o n) = InfoType.range
info_type_of (mnt n) = InfoType.mnt
info_type_of (other t bs) = t

module _ (en : Endian) where
  abbrev pub wire_fsid : Fsid → Bytes
  wire_fsid (first, second) = to_ne_bytes en 4 (to_u32 first) ++ to_ne_bytes en 4 (to_u32 second)

  abbrev pub wire_handle : FileHandle → Bytes
  wire_handle h =
      to_ne_bytes en 4 (length h.handle_bytes)
      ++ (to_ne_bytes en 4 (to_u32 h.handle_type) ++ h.handle_bytes)

  abbrev pub wire_named : Fsid → FileHandle → Bytes → ℕ → Bytes
  wire_named f h name padding = wire_fsid f ++ (wire_handle h ++ (name ++ replicate padding 0))

  abbrev pub wire_payload : Info → Bytes
  wire_payload (fid f h) = wire_fsid f ++ wire_handle h
  wire_payload (dfid f h) = wire_fsid f ++ wire_handle h
  wire_payload (dfid_name f h name padding) = wire_named f h name padding
  wire_payload (old_dfid_name f h name padding) = wire_named f h name padding
  wire_payload (new_dfid_name f h name padding) = wire_named f h name padding
  wire_payload (pidfd n) = to_ne_bytes en 4 (to_u32 n)
  wire_payload (error e count) = to_ne_bytes en 4 (to_u32 e) ++ to_ne_bytes en 4 count
  wire_payload (range offset count) =
      replicate 4 0 ++ (to_ne_bytes en 8 offset ++ to_ne_bytes en 8 count)
  wire_payload (mnt id) = replicate 4 0 ++ to_ne_bytes en 8 id
  wire_payload (other t bs) = bs

  abbrev pub record_len : Info → ℕ
  record_len i = info_header_size + length (wire_payload i)

  -- The record header, and the payload.
  abbrev pub wire_record : Info → Bytes
  wire_record i = (info_type_of i ∷ 0 ∷ []) ++ (to_ne_bytes en 2 (record_len i) ++ wire_payload i)

  abbrev pub wire_records : List Info → Bytes
  wire_records [] = []
  wire_records (i ∷ is) = wire_record i ++ wire_records is

-- What the fields can hold.
abbrev pub IsFsid : Fsid → Type 0
IsFsid (first, second) = IsI32 first × IsI32 second

abbrev pub IsHandle : FileHandle → Type 0
IsHandle h = length h.handle_bytes ≤ max_handle_sz

abbrev pub IsName : Bytes → Type 0
IsName name = All (λ b. b ≢ 0) name

abbrev pub IsUnknown : ℕ → Type 0
IsUnknown t =
    (t < 256)
    × (t ≢ InfoType.fid)
    × (t ≢ InfoType.dfid_name)
    × (t ≢ InfoType.dfid)
    × (t ≢ InfoType.pidfd)
    × (t ≢ InfoType.error)
    × (t ≢ InfoType.range)
    × (t ≢ InfoType.mnt)
    × (t ≢ InfoType.old_dfid_name)
    × (t ≢ InfoType.new_dfid_name)

abbrev pub HasFields : Info → Type 0
HasFields (fid f h) = IsFsid f × IsHandle h
HasFields (dfid f h) = IsFsid f × IsHandle h
HasFields (dfid_name f h name padding) = IsFsid f × IsHandle h × IsName name
HasFields (old_dfid_name f h name padding) = IsFsid f × IsHandle h × IsName name
HasFields (new_dfid_name f h name padding) = IsFsid f × IsHandle h × IsName name
HasFields (pidfd n) = IsI32 n
HasFields (error e count) = IsI32 e × (count < 2 ^ 32)
HasFields (range offset count) = (offset < 2 ^ 64) × (count < 2 ^ 64)
HasFields (mnt id) = id < 2 ^ 64
HasFields (other t bs) = IsUnknown t

-- A record that the kernel can write: its fields fit, and its length is a `u16`.
abbrev pub IsInfo : Endian → Info → Type 0
IsInfo en i = HasFields i × (record_len en i < 2 ^ 16)
