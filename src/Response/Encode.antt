-- ===== src/Response/Encode.antt =====
-- src/response.rs: `encode_response` and `write_response`.
use fanotify_fid.Base.{
  ℕ, ℤ, ◌+◌, ◌^◌, Option, none, some, [], ◌∷◌, ltb, if◌then◌else◌, length, to_u32,
}
use fanotify_fid.Bytes.{Bytes, Endian, to_ne_bytes}
use fanotify_fid.Consts.{info_header_size, fan_nofd}
use fanotify_fid.Errors.{Result, ok, err, write}
use fanotify_fid.Errors.Errno
use fanotify_fid.Response.Buffer.{WireBuffer, new, as_slice, extend_from_slice}
use fanotify_fid.Response.Decision.{FanotifyResponse, ResponseInfo, payload_len, as_bytes}

unfoldable pub fd_field : FanotifyResponse → ℤ
fd_field r = elim r.fd [ none ↦ fan_nofd | some descriptor ↦ descriptor ]

-- What write(2) returns: the bytes it consumed, or -1 and an errno.
pub data Written : Type 0 where
  consumed : ℕ → Written
  failed : ℕ → Written

-- What is made of an attempt to write `len` bytes.
unfoldable pub verdict : Written → ℕ → Result (Unit {0})
verdict (failed e) len = err (write e)
verdict (consumed n) len = if ltb n len then err (write Errno.einval) else ok tt

module _ (en : Endian) where
  unfoldable pub write_info : Option ResponseInfo → WireBuffer → Result WireBuffer
  write_info none body = ok body
  write_info (some info) body =
      let len = info_header_size + payload_len info.payload in
      if ltb len (2 ^ 16)
      then ok (
          extend_from_slice
            (extend_from_slice (extend_from_slice body (info.info_type ∷ 0 ∷ []))
              (to_ne_bytes en 2 len))
            (as_bytes info.payload))
      else err (write Errno.einval)

  unfoldable pub write_decision : FanotifyResponse → WireBuffer
  write_decision r =
      extend_from_slice (extend_from_slice new (to_ne_bytes en 4 (to_u32 (fd_field r))))
        (to_ne_bytes en 4 r.response)

  unfoldable pub encode_response : FanotifyResponse → Result WireBuffer
  encode_response r = write_info r.info (write_decision r)

  -- The group's descriptor is a state of the kernel, which write(2) changes.
  module _ {ℓ} {K : Type ℓ} (sys_write : K → Bytes → K × Written) where
    unfoldable pub send : K → Result WireBuffer → K × Result (Unit {0})
    send k (err e) = (k, err e)
    send k (ok body) =
        let answer = sys_write k (as_slice body) in
        (answer.0, verdict answer.1 (length (as_slice body)))

    unfoldable pub write_response : K → FanotifyResponse → K × Result (Unit {0})
    write_response k r = send k (encode_response r)
