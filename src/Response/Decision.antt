-- ===== src/Response/Decision.antt =====
-- src/response.rs: `FanotifyResponse`, its constructors, and the record that it may carry.
use Prim.Native.Nat.{bit_and, bit_or}
use fanotify_fid.Base.{
  ℕ, ℤ, ◌*◌, ◌-◌, ◌%◌, ◌^◌, Option, none, some, ◌++◌, length, take, replicate, to_u32,
}
use fanotify_fid.Bytes.{Bytes, Endian, to_ne_bytes}
use fanotify_fid.Consts.{
  fan_allow, fan_deny, fan_audit, fan_info, fan_errno_mask, fan_errno_shift,
  fan_response_info_audit_rule,
}
use fanotify_fid.Response.Buffer.{copy_at}

abbrev pub audit_rule_payload_size : ℕ
audit_rule_payload_size = 12

-- The array that the source writes into is the last argument, and the result.
unfoldable pub audit_rule_payload : Endian → ℕ → Bytes → Bytes
audit_rule_payload en rule out =
    let filled = copy_at 0 (to_ne_bytes en 4 rule) out in
    take 4 filled ++ replicate (length filled - 4) 0

pub record InlinePayload : Type 0 where
  pub bytes : Bytes
  pub len : ℕ

unfoldable pub inline_audit_rule : Endian → ℕ → InlinePayload
inline_audit_rule en rule = record {
  bytes = audit_rule_payload en rule (replicate audit_rule_payload_size 0);
  len = audit_rule_payload_size;
}

unfoldable pub as_ref : InlinePayload → Bytes
as_ref p = take p.len p.bytes

pub data ResponsePayload : Type 0 where
  audit_rule_record : InlinePayload → ResponsePayload
  other_record : Bytes → ResponsePayload

unfoldable pub payload_len : ResponsePayload → ℕ
payload_len (audit_rule_record p) = length (as_ref p)
payload_len (other_record bytes) = length bytes

unfoldable pub as_bytes : ResponsePayload → Bytes
as_bytes (audit_rule_record p) = as_ref p
as_bytes (other_record bytes) = bytes

pub record ResponseInfo : Type 0 where
  pub info_type : ℕ
  pub payload : ResponsePayload

-- The descriptor is its number.
pub record FanotifyResponse : Type 0 where
  pub fd : Option ℤ
  pub response : ℕ
  pub info : Option ResponseInfo

unfoldable pub raw : Option ℤ → ℕ → FanotifyResponse
raw descriptor word = record { fd = descriptor; response = word; info = none }

unfoldable pub allow : ℤ → FanotifyResponse
allow descriptor = raw (some descriptor) fan_allow

unfoldable pub deny : ℤ → FanotifyResponse
deny descriptor = raw (some descriptor) fan_deny

-- A shift of a `u32` drops the bits above the 32nd.
unfoldable pub deny_errno_word : ℤ → ℕ
deny_errno_word errno =
    bit_or fan_deny ((bit_and (to_u32 errno) fan_errno_mask * 2 ^ fan_errno_shift) % 2 ^ 32)

unfoldable pub deny_errno : ℤ → ℤ → FanotifyResponse
deny_errno descriptor errno = raw (some descriptor) (deny_errno_word errno)

unfoldable pub with_info : ℕ → ℕ → Bytes → FanotifyResponse
with_info decision kind bytes = record {
  fd = none;
  response = bit_or decision fan_info;
  info = some (record { info_type = kind; payload = other_record bytes });
}

unfoldable pub audit_rule : Endian → ℕ → ℕ → FanotifyResponse
audit_rule en decision rule = record {
  fd = none;
  response = bit_or (bit_or decision fan_audit) fan_info;
  info = some (record {
    info_type = fan_response_info_audit_rule;
    payload = audit_rule_record (inline_audit_rule en rule);
  });
}

unfoldable pub with_fd : FanotifyResponse → ℤ → FanotifyResponse
with_fd r descriptor = record r { fd = some descriptor }

unfoldable pub info_payload : FanotifyResponse → Option Bytes
info_payload r = elim r.info [ none ↦ none | some info ↦ some (as_bytes info.payload) ]
