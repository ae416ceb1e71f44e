-- ===== src/Response/Buffer.antt =====
-- src/response.rs: `WireBuffer`, a `Vec` that starts as an array of 32 bytes.
use fanotify_fid.Base.{
  ℕ, ◌+◌, Option, none, some, ◌++◌, leb, if◌then◌else◌, length, take, drop, replicate,
}
use fanotify_fid.Bytes.{Bytes}

-- `WireBuffer::INLINE`
abbrev pub inline_size : ℕ
inline_size = 32

pub record WireBuffer : Type 0 where
  pub inline : Bytes
  pub len : ℕ
  pub spilled : Option Bytes

-- `out[at..at + bytes.len()].copy_from_slice(bytes)`
unfoldable pub copy_at : ℕ → Bytes → Bytes → Bytes
copy_at at bytes out = take at out ++ (bytes ++ drop (at + length bytes) out)

unfoldable pub new : WireBuffer
new = record { inline = replicate inline_size 0; len = 0; spilled = none }

unfoldable pub as_slice : WireBuffer → Bytes
as_slice b = elim b.spilled [ some vec ↦ vec | none ↦ take b.len b.inline ]

-- With no spilled bytes: in place if they fit, else all of them move to a `Vec`.
unfoldable pub extend_inline : WireBuffer → Bytes → WireBuffer
extend_inline b bytes =
    if leb (b.len + length bytes) inline_size
    then record b { inline = copy_at b.len bytes b.inline; len = b.len + length bytes }
    else record b { spilled = some (take b.len b.inline ++ bytes) }

unfoldable pub extend_from_slice : WireBuffer → Bytes → WireBuffer
extend_from_slice b bytes = elim b.spilled [
  | some vec ↦ record b { spilled = some (vec ++ bytes) }
  | none ↦ extend_inline b bytes
]
