-- ===== src/Sys/Read.antt =====
-- src/sys.rs: `read_into` and `read_events`, over the answers that the kernel gives to read(2), one
-- after the other. A call that the answers do not bring to an end has no result: it still waits.
use fanotify_fid.Base.{
  ℕ, ◌*◌, Option, none, some, List, [], ◌∷◌, ◌++◌, ◌==◌, if◌then◌else◌, length, take, drop,
  replicate,
}
use fanotify_fid.Bytes.{Bytes}
use fanotify_fid.Errors.{Result, ok, err, read}
use fanotify_fid.Errors.Errno

-- The bytes that were transferred, or -1 and an errno.
pub data ReadAnswer : Type 0 where
  got : Bytes → ReadAnswer
  failed : ℕ → ReadAnswer

-- What the kernel writes to the front of a buffer.
unfoldable pub write_front : Bytes → Bytes → Bytes
write_front bytes buf = bytes ++ drop (length bytes) buf

-- How many bytes were read, the buffer, and the answers that are left.
unfoldable pub read_into : Bytes → List ReadAnswer → Option (Result ℕ × Bytes × List ReadAnswer)
read_into buf [] = none
read_into buf (got bytes ∷ answers) = some (ok (length bytes), write_front bytes buf, answers)
read_into buf (failed e ∷ answers) =
    let again = read_into buf answers in
    if e == Errno.eintr then again else some (err (read e), buf, answers)

-- A `Vec`: all the bytes that it has allocated, of which the first `len` are its contents.
pub record ByteVec : Type 0 where
  pub allocation : Bytes
  pub len : ℕ

unfoldable pub contents : ByteVec → Bytes
contents v = take v.len v.allocation

abbrev pub default_buf_bytes : ℕ
default_buf_bytes = 64 * 1024

-- `if buf.capacity() == 0 { buf.reserve(DEFAULT_BUF_BYTES); }`; nobody reads the new bytes.
unfoldable pub reserve_default : ByteVec → ByteVec
reserve_default v =
    if length v.allocation == 0 then record v { allocation = replicate default_buf_bytes 0 } else v

unfoldable pub finish_read :
    Option (Result ℕ × Bytes × List ReadAnswer)
    → Option (Result (Unit {0}) × ByteVec × List ReadAnswer)
finish_read none = none
finish_read (some (ok n, bytes, answers)) =
    some (ok tt, record { allocation = bytes; len = n }, answers)
finish_read (some (err e, bytes, answers)) =
    some (err e, record { allocation = bytes; len = 0 }, answers)

unfoldable pub read_events :
    ByteVec → List ReadAnswer → Option (Result (Unit {0}) × ByteVec × List ReadAnswer)
read_events v answers = finish_read (read_into (reserve_default v).allocation answers)
