-- ===== src/Response/AuditRule.antt =====
-- The audited decision, the only record that the crate builds itself.
use Prim.Native.Nat.{bit_or}
use fanotify_fid.Base.{
  ℕ, ℤ, ◌≡◌, refl, ◌∙◌, true, false, [], ◌∷◌, ◌++◌, length, to_u32, replicate, length-append, arith,
  ◌+◌, is_some, lt→ltb,
}
use fanotify_fid.Bytes.{Bytes, Endian, little, big, le_bytes, to_ne_bytes}
use fanotify_fid.Bytes.Words.{length-to_ne_bytes}
use fanotify_fid.Consts.{info_header_size, fan_audit, fan_info, fan_response_info_audit_rule}
use fanotify_fid.Errors.{ok}
use fanotify_fid.Response.Buffer.{copy_at, as_slice}
use fanotify_fid.Response.Decision.{
  audit_rule_record, audit_rule_payload, inline_audit_rule, as_ref, as_bytes, audit_rule, with_fd,
}
use fanotify_fid.Response.Encode.{fd_field, encode_response}
use fanotify_fid.Response.Wire.{
  record_len, has_room, record_bytes, wire_bytes, on_ok, encode_response-wire_bytes,
}

-- The rule's number, and the two trust levels, which stay 0.
as_bytes-inline_audit_rule :
    (en : Endian) (rule : ℕ)
    → as_bytes (audit_rule_record (inline_audit_rule en rule))
      ≡ to_ne_bytes en 4 rule ++ replicate 8 0
unfolding as_bytes as_ref inline_audit_rule audit_rule_payload copy_at to_ne_bytes le_bytes
as_bytes-inline_audit_rule little rule = refl
as_bytes-inline_audit_rule big rule = refl

unfoldable pub audit_layout : Endian → ℤ → ℕ → ℕ → Bytes
audit_layout en descriptor decision rule =
    to_ne_bytes en 4 (to_u32 descriptor)
    ++ (to_ne_bytes en 4 (bit_or (bit_or decision fan_audit) fan_info)
        ++ ((fan_response_info_audit_rule ∷ 0 ∷ [])
            ++ (to_ne_bytes en 2 16 ++ (to_ne_bytes en 4 rule ++ replicate 8 0))))

length-audit_layout :
    (en : Endian) (descriptor : ℤ) (decision rule : ℕ)
    → length (audit_layout en descriptor decision rule) ≡ 24
unfolding audit_layout to_ne_bytes le_bytes
length-audit_layout little descriptor decision rule = refl
length-audit_layout big descriptor decision rule = refl

module _ (en : Endian) (descriptor : ℤ) (decision rule : ℕ) where
  wire_bytes-audit_rule :
      wire_bytes en (with_fd (audit_rule en decision rule) descriptor)
      ≡ audit_layout en descriptor decision rule
  unfolding wire_bytes audit_layout record_bytes record_len with_fd audit_rule fd_field
  wire_bytes-audit_rule =
      rw
        (
          as_bytes-inline_audit_rule en rule,
          (let e : info_header_size + length (to_ne_bytes en 4 rule ++ replicate 8 0) ≡ 16 = omega (
            arith,
            length-append (to_ne_bytes en 4 rule) (replicate 8 0),
            length-to_ne_bytes en 4 rule,
          ) in
              e),
        )
        refl

  has_room-audit_rule : has_room (with_fd (audit_rule en decision rule) descriptor).info ≡ true
  unfolding has_room record_len with_fd audit_rule
  has_room-audit_rule = rw (as_bytes-inline_audit_rule en rule) (
      lt→ltb _ _ (
        omega (
          arith,
          length-append (to_ne_bytes en 4 rule) (replicate 8 0),
          length-to_ne_bytes en 4 rule,
        )))

  -- The audited decision is always encoded: its 24 bytes are the kernel's
  -- `fanotify_response_info_audit_rule` behind the response, with both trust levels 0, and stay in
  -- the buffer's array.
  pub encode_response-audit_rule :
      let encoded = encode_response en (with_fd (audit_rule en decision rule) descriptor) in
      (on_ok as_slice encoded ≡ ok (audit_layout en descriptor decision rule))
      × (length (audit_layout en descriptor decision rule) ≡ 24)
      × (on_ok (λ b. is_some b.spilled) encoded ≡ ok false)
  encode_response-audit_rule =
      let r = with_fd (audit_rule en decision rule) descriptor in
      let both = encode_response-wire_bytes en r in
      (
        (let e : on_ok as_slice (encode_response en r)
                ≡ ok (audit_layout en descriptor decision rule) =
              both.0 ∙ rw (has_room-audit_rule, wire_bytes-audit_rule) refl in
            e),
        length-audit_layout en descriptor decision rule,
        both.1
            ∙ rw
                (
                  has_room-audit_rule,
                  wire_bytes-audit_rule,
                  length-audit_layout en descriptor decision rule,
                )
                refl,
      )
