-- ===== src/Response/Write.antt =====
-- What `write_response` makes of the kernel's answer.
use fanotify_fid.Base.{
  ℕ, ◌≡◌, refl, ap, inl, inr, Bool, false, leb, if◌then◌else◌, arith, Bool-cases, length,
}
use fanotify_fid.Bytes.{Bytes, Endian}
use fanotify_fid.Errors.{ok, err, write}
use fanotify_fid.Errors.Errno
use fanotify_fid.Response.Decision.{FanotifyResponse}
use fanotify_fid.Response.Encode.{Written, consumed, failed, verdict, send, write_response}
use fanotify_fid.Response.Wire.{
  has_room, wire_bytes, encode_response-Built, encode_response_refused,
}

-- The kernel took the whole response.
unfoldable pub took_all : Written → ℕ → Bool
took_all (consumed n) len = leb len n
took_all (failed e) len = false

-- The errno of an attempt that did not: the kernel's own, or EINVAL for a short write.
unfoldable pub refusal : Written → ℕ
refusal (consumed n) = Errno.einval
refusal (failed e) = e

verdict_lem :
    (w : Written) (len : ℕ)
    → verdict w len ≡ (if took_all w len then ok tt else err (write (refusal w)))
unfolding verdict took_all refusal
verdict_lem (consumed n) len = ground arith
verdict_lem (failed e) len = refl

-- A response whose record has room is written as the layout's bytes, in one call, and succeeds
-- exactly if the kernel took all of them; otherwise the errno is the kernel's, or EINVAL for a
-- short write. A record without room is EINVAL, and the kernel sees nothing.
pub write_response-outcome {ℓ} :
    {K : Type ℓ} (en : Endian) (sys_write : K → Bytes → K × Written) (k : K) (r : FanotifyResponse)
    → let bytes = wire_bytes en r in
      let answer = sys_write k bytes in
      write_response en sys_write k r ≡ (
        if has_room r.info
        then (
          answer.0,
          (if took_all answer.1 (length bytes) then ok tt else err (write (refusal answer.1))),
        )
        else (k, err (write Errno.einval)))
unfolding write_response send
write_response-outcome {K} en sys_write k r = elim (Bool-cases (has_room r.info)) [
  | inl room ↦
      let (body, e, h) = encode_response-Built en r room in
      rw (e, room, h.slice) (ap (λ v. ((sys_write k (wire_bytes en r)).0, v)) (verdict_lem _ _))
  | inr full ↦ rw (encode_response_refused en r full, full) refl
]
