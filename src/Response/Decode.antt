-- ===== src/Response/Decode.antt =====
-- A reader of `struct fanotify_response` and its record, and that it reads what was written.
use fanotify_fid.Base.{
  ℕ, ℤ, ◌+◌, ◌-◌, ◌^◌, ◌<◌, ◌≡◌, refl, subst, sym, ap, ◌∙◌, true, Option, none, some, [], ◌∷◌, ◌++◌,
  arith, leb, ltb→lt, lt→leb_false, if◌then◌else◌, length, take, drop, to_u32, to_i32, IsI32,
  to_i32-to_u32, to_u32_lt, length-append, length-drop, take_all,
}
use fanotify_fid.Bytes.{
  Bytes, Endian, to_ne_bytes, from_ne_bytes, le_value, read_field, little, big,
}
use fanotify_fid.Bytes.Words.{length-to_ne_bytes}
use fanotify_fid.Bytes.Holds.{Holds, Holds-left, Holds-right, read_field-Holds, read_field-word}
use fanotify_fid.Consts.{info_header_size}
use fanotify_fid.Errors.{ok}
use fanotify_fid.Response.Buffer.{as_slice}
use fanotify_fid.Response.Decision.{FanotifyResponse, ResponseInfo, as_bytes}
use fanotify_fid.Response.Encode.{fd_field, encode_response}
use fanotify_fid.Response.Wire.{
  record_len, has_room, record_bytes, wire_bytes, on_ok, encode_response-Built,
}

pub record Decoded : Type 0 where
  pub fd : ℤ
  pub word : ℕ
  pub info : Option (ℕ × Bytes)

module _ (en : Endian) where
  -- The record behind the 8 bytes of the response: its type, and the `len - 4` bytes of its body.
  unfoldable pub decode_info : Bytes → Option (ℕ × Bytes)
  decode_info bytes =
      if leb (length bytes) 8
      then none
      else some (
        read_field en 1 bytes 8,
        take (read_field en 2 bytes 10 - info_header_size) (drop 12 bytes),
      )

  unfoldable pub decode : Bytes → Decoded
  decode bytes = record {
    fd = to_i32 (read_field en 4 bytes 0);
    word = read_field en 4 bytes 4;
    info = decode_info bytes;
  }

unfoldable pub contents : Option ResponseInfo → Option (ℕ × Bytes)
contents none = none
contents (some info) = some (info.info_type, as_bytes info.payload)

from_ne_bytes-one : (en : Endian) (b : ℕ) → from_ne_bytes en (b ∷ []) ≡ b
unfolding from_ne_bytes le_value
from_ne_bytes-one little b = omega arith
from_ne_bytes-one big b = omega arith

module _ (en : Endian) where
  -- The record stands behind 8 bytes, and nothing behind it.
  decode_info-record :
      (info : Option ResponseInfo) (bytes : Bytes)
      → Holds bytes 8 (record_bytes en info)
      → length bytes ≡ 8 + length (record_bytes en info)
      → has_room info ≡ true
      → decode_info en bytes ≡ contents info
  unfolding record_bytes decode_info contents has_room record_len
  decode_info-record none bytes h size room = rw size refl
  decode_info-record (some info) bytes h size room =
      let body = as_bytes info.payload in
      let len = to_ne_bytes en 2 (record_len info) in
      let tail = Holds-right (info.info_type ∷ 0 ∷ []) (len ++ body) h in
      let kind : read_field en 1 bytes 8 ≡ info.info_type =
        read_field-Holds en 1 (info.info_type ∷ [])
          (Holds-left (info.info_type ∷ []) (0 ∷ (len ++ body)) h) refl
        ∙ from_ne_bytes-one en info.info_type in
      let size_field : read_field en 2 bytes 10 ≡ record_len info =
        read_field-word en 2 (record_len info) (Holds-left len body tail)
          (omega (arith, ltb→lt _ _ room)) in
      let rest = Holds-right len body tail in
      let at_body : 10 + length len ≡ 12 =
        omega (arith, length-to_ne_bytes en 2 (record_len info)) in
      let start : drop 12 bytes ≡ body =
        sym (
          take_all (length body) (drop 12 bytes) (
            omega (
              arith,
              size,
              length-drop 12 bytes,
              length-append len body,
              length-to_ne_bytes en 2 (record_len info),
            )))
        ∙ (let e : take (length body) (drop 12 bytes) ≡ body = rw⁻¹ at_body rest.reads in e) in
      rw (kind, size_field, start, lt→leb_false (length bytes) 8 (omega (arith, size)))
        (ap (λ t. some (info.info_type, t))
          (take_all (record_len info - info_header_size) body (omega (arith))))

  Holds-whole : (bytes : Bytes) → Holds bytes 0 bytes
  Holds-whole bytes = record {
    within = omega arith;
    reads = take_all (length bytes) bytes (omega arith);
  }

  module _ (r : FanotifyResponse) (descriptor : IsI32 (fd_field r)) (word : r.response < 2 ^ 32)
      (room : has_room r.info ≡ true) where
    -- In any buffer that holds just the bytes of the layout.
    decode-layout :
        (bytes : Bytes)
        → Holds bytes 0 (wire_bytes en r)
        → length bytes ≡ length (wire_bytes en r)
        → decode en bytes ≡ record { fd = fd_field r; word = r.response; info = contents r.info }
    unfolding decode wire_bytes
    decode-layout bytes h size =
        let head = to_ne_bytes en 4 (to_u32 (fd_field r)) in
        let decision = to_ne_bytes en 4 r.response in
        let rest = Holds-right head (decision ++ record_bytes en r.info) h in
        let four : 0 + length head ≡ 4 =
          omega (arith, length-to_ne_bytes en 4 (to_u32 (fd_field r))) in
        let four_more : length decision ≡ 4 = length-to_ne_bytes en 4 r.response in
        let fd_read : read_field en 4 bytes 0 ≡ to_u32 (fd_field r) =
          read_field-word en 4 (to_u32 (fd_field r))
            (Holds-left head (decision ++ record_bytes en r.info) h)
            (omega (arith, to_u32_lt (fd_field r) descriptor)) in
        let word_read : read_field en 4 bytes 4 ≡ r.response =
          read_field-word en 4 r.response
            (subst (λ at. Holds bytes at decision) four
              (Holds-left decision (record_bytes en r.info) rest))
            (omega (arith, word)) in
        let info_read : decode_info en bytes ≡ contents r.info =
          decode_info-record r.info bytes
            (subst (λ at. Holds bytes at (record_bytes en r.info))
              (let e : 0 + length head + length decision ≡ 8 = omega (arith, four, four_more) in e)
              (Holds-right decision (record_bytes en r.info) rest))
            (omega (
              arith,
              size,
              four,
              four_more,
              length-append head (decision ++ record_bytes en r.info),
              length-append decision (record_bytes en r.info),
            ))
            room in
        λ i. record {
          fd = (ap to_i32 fd_read ∙ to_i32-to_u32 (fd_field r) descriptor) i;
          word = word_read i;
          info = info_read i;
        }

    pub decode-wire_bytes :
        decode en (wire_bytes en r)
        ≡ record { fd = fd_field r; word = r.response; info = contents r.info }
    decode-wire_bytes = decode-layout (wire_bytes en r) (Holds-whole (wire_bytes en r)) refl

    -- The bytes that `encode_response` builds say what the response says: its descriptor, or
    -- FAN_NOFD, its word, and the type and the body of its record, if it has one.
    pub encode_response-decode :
        on_ok (λ b. decode en (as_slice b)) (encode_response en r)
        ≡ ok (record { fd = fd_field r; word = r.response; info = contents r.info })
    unfolding on_ok
    encode_response-decode =
        let (body, e, h) = encode_response-Built en r room in
        rw (e, h.slice) (ap ok decode-wire_bytes)
