-- ===== src/Response/Examples.antt =====
-- The theorems on src/response.rs at concrete responses.
use fanotify_fid.Base.{
  ℕ, ◌+◌, pos, ◌/◌, ◌%◌, ◌^◌, ◌≡◌, refl, arith, true, some, [], ◌∷◌, length, to_u32, is_some, ltb,
  if◌then◌else◌,
}
use fanotify_fid.Bytes.{Bytes, little, big, le_bytes, to_ne_bytes}
use fanotify_fid.Consts.{fan_deny}
use fanotify_fid.Errors.{ok, err, write}
use fanotify_fid.Errors.Errno
use fanotify_fid.Response.Buffer.{
  inline_size, as_slice, copy_at, new, extend_inline, extend_from_slice,
}
use fanotify_fid.Response.Decision.{
  FanotifyResponse, other_record, deny_errno_word, as_bytes, payload_len,
}
use fanotify_fid.Response.Encode.{
  Written, consumed, fd_field, write_info, write_decision, encode_response, write_response,
}
use fanotify_fid.Response.Wire.{has_room, record_len, wire_bytes, on_ok, encode_response-wire_bytes}
use fanotify_fid.Response.Write.{took_all, refusal, write_response-outcome}
use fanotify_fid.Response.Decode.{decode, contents, encode_response-decode}
use fanotify_fid.Response.ErrnoWord.{deny_errno_word-fields}

-- FAN_DENY | FAN_INFO with a record of type 5.
abbrev refusing : FanotifyResponse
refusing = record {
  fd = some (pos 7);
  response = 34;
  info = some (record { info_type = 5; payload = other_record (1 ∷ 2 ∷ []) });
}

-- The bytes on the wire, and a record too long for its header.
refusing_bytes :
    on_ok as_slice (encode_response little refusing)
    ≡ ok (7 ∷ 0 ∷ 0 ∷ 0 ∷ 34 ∷ 0 ∷ 0 ∷ 0 ∷ 5 ∷ 0 ∷ 6 ∷ 0 ∷ 1 ∷ 2 ∷ [])
unfolding on_ok as_slice encode_response write_info write_decision fd_field payload_len as_bytes
    extend_from_slice extend_inline copy_at new to_ne_bytes le_bytes
refusing_bytes = refl

encode_response-wire_bytes_example :
    (on_ok as_slice (encode_response big refusing)
      ≡ (if has_room refusing.info then ok (wire_bytes big refusing) else err (write Errno.einval)))
    × (on_ok (λ b. is_some b.spilled) (encode_response big refusing) ≡ (
        if has_room refusing.info
        then ok (ltb inline_size (length (wire_bytes big refusing)))
        else err (write Errno.einval)))
encode_response-wire_bytes_example = encode_response-wire_bytes big refusing

refusing-has_room : has_room refusing.info ≡ true
unfolding has_room record_len as_bytes
refusing-has_room = refl

encode_response-decode_example :
    on_ok (λ b. decode big (as_slice b)) (encode_response big refusing)
    ≡ ok (record { fd = fd_field refusing; word = 34; info = contents refusing.info })
unfolding fd_field
encode_response-decode_example =
    encode_response-decode big refusing (omega arith) (omega arith) refusing-has_room

-- A kernel that counts the calls and takes half of the bytes.
abbrev half : ℕ → Bytes → ℕ × Written
half k bytes = (k + 1, consumed (length bytes / 2))

write_response-outcome_example :
    let bytes = wire_bytes little refusing in
    let answer = half 0 bytes in
    write_response little half 0 refusing ≡ (
      if has_room refusing.info
      then (
        answer.0,
        (if took_all answer.1 (length bytes) then ok tt else err (write (refusal answer.1))),
      )
      else (0, err (write Errno.einval)))
write_response-outcome_example = write_response-outcome little half 0 refusing

deny_errno_word-fields_example :
    (deny_errno_word (pos 13) / 2 ^ 24 ≡ to_u32 (pos 13) % 256)
    × (deny_errno_word (pos 13) % 2 ^ 24 ≡ fan_deny)
deny_errno_word-fields_example = deny_errno_word-fields (pos 13)
