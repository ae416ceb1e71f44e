-- ===== src/Bytes.antt =====
-- Byte buffers, ranges of them, and the integers in them (src/fid.rs: read_u32, read_u64,
-- read_unaligned). A byte is a number below 256. The kernel writes its structures in the host's
-- byte order (`from_ne_bytes`), so every reader takes the order as its first argument.
pub mod Holds
pub mod Words
use fanotify_fid.Base.{
  ℕ, zero, suc, ◌+◌, ◌-◌, ◌*◌, ◌/◌, ◌%◌, ◌<◌, Bool, true, false, ◌&&◌, Option, none, some, List, [],
  ◌∷◌, leb, if◌then◌else◌, ◌>>=◌, ◌>>◌, guard, length, take, drop, All,
}
use mathlib.Core.List.{reverse}

abbrev pub Bytes : Type 0
Bytes = List ℕ

abbrev pub IsByte : ℕ → Type 0
IsByte b = b < 256

pub data Endian : Type 0 where
  little big : Endian

-- `buf.get(from..to)`
unfoldable pub get_range : Bytes → ℕ → ℕ → Option Bytes
get_range buf from to =
    if leb from to && leb to (length buf) then some (take (to - from) (drop from buf)) else none

unfoldable pub le_value : Bytes → ℕ
le_value [] = 0
le_value (b ∷ bs) = b + 256 * le_value bs

-- The `w` low bytes of `v`, the lowest first.
unfoldable pub le_bytes : ℕ → ℕ → Bytes
le_bytes zero v = []
le_bytes (suc w) v = (v % 256) ∷ le_bytes w (v / 256)

-- `uN::from_ne_bytes`
unfoldable pub from_ne_bytes : Endian → Bytes → ℕ
from_ne_bytes little bs = le_value bs
from_ne_bytes big bs = le_value (reverse bs)

-- `to_ne_bytes` of a `w`-byte integer
unfoldable pub to_ne_bytes : Endian → ℕ → ℕ → Bytes
to_ne_bytes little w v = le_bytes w v
to_ne_bytes big w v = reverse (le_bytes w v)

module _ (en : Endian) where
  -- A `w`-byte field of a struct that `read_unaligned` copies out of the buffer.
  unfoldable pub read_field : ℕ → Bytes → ℕ → ℕ
  read_field w buf at = from_ne_bytes en (take w (drop at buf))

  -- A `u32`, if `len` bytes are available.
  unfoldable pub read_u32 : Bytes → ℕ → ℕ → Option ℕ
  read_u32 buf at len = do
    bytes ← get_range buf at (at + 4)
    guard (leb 4 len)
    some (from_ne_bytes en bytes)

  -- A `u64`, if `len` bytes are available.
  unfoldable pub read_u64 : Bytes → ℕ → ℕ → Option ℕ
  read_u64 buf at len = do
    bytes ← get_range buf at (at + 8)
    guard (leb 8 len)
    some (from_ne_bytes en bytes)
