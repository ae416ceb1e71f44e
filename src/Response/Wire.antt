-- ===== src/Response/Wire.antt =====
-- The bytes of `struct fanotify_response` and of the record behind it, as the kernel lays them out,
-- and the bytes that `encode_response` builds.
use fanotify_fid.Base.{
  ℕ, ◌+◌, ◌^◌, ◌≡◌, refl, subst, ap, inl, inr, Bool, true, false, Option, none, some, [], ◌∷◌, ◌++◌,
  ltb, if◌then◌else◌, Bool-cases, length, to_u32, is_some,
}
use mathlib.Core.List.{append_assoc, append-nil}
use fanotify_fid.Bytes.{Bytes, Endian, to_ne_bytes}
use fanotify_fid.Consts.{info_header_size}
use fanotify_fid.Errors.{Result, ok, err, write}
use fanotify_fid.Errors.Errno
use fanotify_fid.Response.Buffer.{WireBuffer, inline_size, new, as_slice}
use fanotify_fid.Response.Append.{Built, Built-new, Built-extend_from_slice}
use fanotify_fid.Response.Decision.{
  FanotifyResponse, ResponseInfo, ResponsePayload, audit_rule_record, other_record, payload_len,
  as_bytes,
}
use fanotify_fid.Response.Encode.{fd_field, write_info, write_decision, encode_response}

unfoldable pub record_len : ResponseInfo → ℕ
record_len info = info_header_size + length (as_bytes info.payload)

-- The length of a record is a `u16` in its header.
unfoldable pub has_room : Option ResponseInfo → Bool
has_room none = true
has_room (some info) = ltb (record_len info) (2 ^ 16)

module _ (en : Endian) where
  unfoldable pub record_bytes : Option ResponseInfo → Bytes
  record_bytes none = []
  record_bytes (some info) =
      (info.info_type ∷ 0 ∷ []) ++ (to_ne_bytes en 2 (record_len info) ++ as_bytes info.payload)

  unfoldable pub wire_bytes : FanotifyResponse → Bytes
  wire_bytes r =
      to_ne_bytes en 4 (to_u32 (fd_field r)) ++ (to_ne_bytes en 4 r.response ++ record_bytes r.info)

payload_len_lem : (p : ResponsePayload) → payload_len p ≡ length (as_bytes p)
unfolding payload_len as_bytes
payload_len_lem (audit_rule_record p) = refl
payload_len_lem (other_record bytes) = refl

-- What a result holds, seen through `f`.
unfoldable pub on_ok {ℓ κ} : {A : Type ℓ} {B : Type κ} → (A → B) → Result A → Result B
on_ok f (ok a) = ok (f a)
on_ok f (err e) = err e

module _ (en : Endian) where
  write_info-Built :
      (info : Option ResponseInfo) (body : WireBuffer) (bytes : Bytes)
      → Built body bytes
      → has_room info ≡ true
      → (out : WireBuffer) × (write_info en info body ≡ ok out)
        × Built out (bytes ++ record_bytes en info)
  unfolding write_info has_room record_len record_bytes
  write_info-Built none body bytes h room = (body, refl, rw (append-nil bytes) h)
  write_info-Built (some info) body bytes h room =
      rw (payload_len_lem info.payload, room)
        (
          _,
          refl,
          subst (Built _)
              (let e : ((bytes ++ (info.info_type ∷ 0 ∷ []))
                        ++ to_ne_bytes en 2 (info_header_size + length (as_bytes info.payload)))
                      ++ as_bytes info.payload
                    ≡ bytes
                      ++ ((info.info_type ∷ 0 ∷ [])
                          ++ (to_ne_bytes en 2 (info_header_size + length (as_bytes info.payload))
                              ++ as_bytes info.payload)) =
                  simp (append_assoc) in
                e)
              (Built-extend_from_slice _ _ _
                (Built-extend_from_slice _ _ _ (Built-extend_from_slice _ _ _ h))),
        )

  write_info_refused :
      (info : Option ResponseInfo) (body : WireBuffer)
      → has_room info ≡ false
      → write_info en info body ≡ err (write Errno.einval)
  unfolding write_info has_room record_len
  write_info_refused none body room = cc
  write_info_refused (some info) body room = rw (payload_len_lem info.payload, room) refl

  write_decision-Built :
      (r : FanotifyResponse)
      → Built
          (write_decision en r)
          (to_ne_bytes en 4 (to_u32 (fd_field r)) ++ to_ne_bytes en 4 r.response)
  unfolding write_decision
  write_decision-Built r =
      Built-extend_from_slice _ _ _ (Built-extend_from_slice new [] _ Built-new)

  pub encode_response-Built :
      (r : FanotifyResponse)
      → has_room r.info ≡ true
      → (body : WireBuffer) × (encode_response en r ≡ ok body) × Built body (wire_bytes en r)
  unfolding encode_response wire_bytes
  encode_response-Built r room =
      rw⁻¹
        (append_assoc (to_ne_bytes en 4 (to_u32 (fd_field r))) (to_ne_bytes en 4 r.response)
          (record_bytes en r.info))
        (write_info-Built r.info (write_decision en r) _ (write_decision-Built r) room)

  pub encode_response_refused :
      (r : FanotifyResponse)
      → has_room r.info ≡ false
      → encode_response en r ≡ err (write Errno.einval)
  unfolding encode_response
  encode_response_refused r full = write_info_refused r.info (write_decision en r) full

  -- The buffer of `encode_response` holds the bytes of the layout, on its stack for up to 32 of
  -- them; it is refused with EINVAL exactly when the record's length is no `u16`.
  pub encode_response-wire_bytes :
      (r : FanotifyResponse)
      → (on_ok as_slice (encode_response en r)
          ≡ (if has_room r.info then ok (wire_bytes en r) else err (write Errno.einval)))
        × (on_ok (λ b. is_some b.spilled) (encode_response en r) ≡ (
            if has_room r.info
            then ok (ltb inline_size (length (wire_bytes en r)))
            else err (write Errno.einval)))
  unfolding on_ok
  encode_response-wire_bytes r = elim (Bool-cases (has_room r.info)) [
    | inl room ↦
        let (body, e, h) = encode_response-Built r room in
        rw (e, room) (ap ok h.slice, ap ok h.spills)
    | inr full ↦ rw (full, encode_response_refused r full) (refl, refl)
  ]
