-- ===== src/Fid/Payload.antt =====
-- src/fid.rs: the payloads of the info records (`read_fsid`, `read_file_handle`,
-- `split_fsid_handle`, `split_fsid_handle_name`). `?` is the bind of `Option`.
use fanotify_fid.Base.{
  ℕ, ◌+◌, ◌-◌, to_i32, Option, none, some, [], ◌∷◌, leb, ltb, ◌==◌, if◌then◌else◌, ◌>>=◌, ◌>>◌,
  guard, not, length,
}
use fanotify_fid.Bytes.{Bytes, Endian, get_range, read_u32}
use fanotify_fid.Consts.{fsid_size, file_handle_header_size, max_handle_sz}
use fanotify_fid.Fid.Event.{Fsid}

-- `len.checked_sub(k)`
abbrev pub checked_sub : ℕ → ℕ → Option ℕ
checked_sub len k = if leb k len then some (len - k) else none

-- `&raw[..nul]` at the first NUL, or all of `raw`.
unfoldable pub until_nul : Bytes → Bytes
until_nul [] = []
until_nul (b ∷ bs) = if b == 0 then [] else b ∷ until_nul bs

module _ (en : Endian) where
  unfoldable pub read_fsid : Bytes → ℕ → ℕ → Option Fsid
  read_fsid buf at len = do
    guard (not (ltb len fsid_size))
    first ← read_u32 en buf at len
    second ← read_u32 en buf (at + 4) (len - 4)
    some (to_i32 first, to_i32 second)

  unfoldable pub read_file_handle : Bytes → ℕ → ℕ → Option Bytes
  read_file_handle buf at len = do
    handle_bytes ← read_u32 en buf at len
    guard (not (ltb max_handle_sz handle_bytes))
    let total = file_handle_header_size + handle_bytes
    guard (not (ltb len total))
    get_range buf at (at + total)

  unfoldable pub split_fsid_handle : Bytes → ℕ → ℕ → Option (Fsid × Bytes)
  split_fsid_handle buf at len = do
    fsid ← read_fsid buf at len
    rest ← checked_sub len fsid_size
    handle ← read_file_handle buf (at + fsid_size) rest
    some (fsid, handle)

  unfoldable pub split_fsid_handle_name : Bytes → ℕ → ℕ → Option (Fsid × Bytes × Bytes)
  split_fsid_handle_name buf at len = do
    fsid ← read_fsid buf at len
    rest ← checked_sub len fsid_size
    handle ← read_file_handle buf (at + fsid_size) rest
    let name_at = at + fsid_size + length handle
    name_len ← checked_sub len (fsid_size + length handle)
    raw ← get_range buf name_at (name_at + name_len)
    some (fsid, handle, until_nul raw)
