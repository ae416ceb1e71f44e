-- ===== src/Response/ErrnoWord.antt =====
-- src/response.rs, `deny_errno_word`: FAN_DENY below, the errno's low 8 bits on top.
use Prim.Native.Nat.{bit_and, bit_or, bit_and-bitwise, bit_or-bitwise, digits}
use fanotify_fid.Base.{
  ℕ, ℤ, zero, suc, ◌+◌, ◌*◌, ◌/◌, ◌%◌, ◌^◌, ◌≤◌, ◌<◌, min, ◌≡◌, refl, ◌∙◌, arith, to_u32,
}
use fanotify_fid.Consts.{fan_deny}
use fanotify_fid.Response.Decision.{deny_errno_word}

-- Masking with `m` leaves the remainder by `d`, whatever the count of digits to go.
abbrev Keeps : ℕ → ℕ → Type 0
Keeps m d = (left a : ℕ) → a ≤ left → digits (λ b. zero) min left a m ≡ a % d

no_mask : Keeps 0 1
no_mask zero a h = omega arith
no_mask (suc left) zero h = omega arith
no_mask (suc left) (suc a) h = omega (arith, no_mask left (suc a / 2) (omega arith))

-- One more digit of ones in front.
module _ (m d wide wider : ℕ) (above : wide / 2 ≡ m) (ones : wide % 2 ≡ 1)
    (split : (a : ℕ) → a % wider ≡ a / 2 % d * 2 + a % 2) where
  widen : Keeps m d → Keeps wide wider
  widen k zero a h = omega (arith, split a, k zero 0 (omega arith))
  widen k (suc left) zero h = omega (arith, split 0, k zero 0 (omega arith))
  widen k (suc left) (suc a) h =
      rw (above, ones) (omega (arith, split (suc a), k left (suc a / 2) (omega arith)))

byte_mask : Keeps 255 256
byte_mask =
    let two =
      widen 1 2 3 4 refl refl (λ a. omega arith)
        (widen 0 1 1 2 refl refl (λ a. omega arith) no_mask) in
    let four =
      widen 7 8 15 16 refl refl (λ a. omega arith)
        (widen 3 4 7 8 refl refl (λ a. omega arith) two) in
    let six =
      widen 31 32 63 64 refl refl (λ a. omega arith)
        (widen 15 16 31 32 refl refl (λ a. omega arith) four) in
    widen 127 128 255 256 refl refl (λ a. omega arith)
      (widen 63 64 127 128 refl refl (λ a. omega arith) six)

bit_and-byte : (a : ℕ) → bit_and a 255 ≡ a % 256
bit_and-byte a = bit_and-bitwise a 255 ∙ byte_mask a a (omega arith)

-- FAN_DENY, which is the second bit alone, and 8 bits on top of 24.
bit_or-top : (y : ℕ) → y < 256 → bit_or 2 ((y * 2 ^ 24) % 2 ^ 32) ≡ y * 2 ^ 24 + 2
bit_or-top y h = bit_or-bitwise 2 ((y * 2 ^ 24) % 2 ^ 32) ∙ omega arith

-- The errno's low 8 bits are the word's upper 8; the 24 below them are those of FAN_DENY.
pub deny_errno_word-fields :
    (errno : ℤ)
    → (deny_errno_word errno / 2 ^ 24 ≡ to_u32 errno % 256)
      × (deny_errno_word errno % 2 ^ 24 ≡ fan_deny)
unfolding deny_errno_word
deny_errno_word-fields errno =
    rw (bit_and-byte (to_u32 errno), bit_or-top (to_u32 errno % 256) (omega arith))
      (omega arith, omega arith)
