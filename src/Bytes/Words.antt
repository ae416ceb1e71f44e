-- ===== src/Bytes/Words.antt =====
-- An integer is read back from the bytes that it was written as, in either byte order.
use fanotify_fid.Base.{
  ℕ, zero, suc, ◌/◌, ◌^◌, ◌<◌, ◌≡◌, refl, ap, ◌∙◌, [], ◌∷◌, arith, length, length-append, List,
}
use mathlib.Core.List.{reverse, reverse-reverse, reverse-cons}
use fanotify_fid.Bytes.{Endian, little, big, le_value, le_bytes, from_ne_bytes, to_ne_bytes}

length-le_bytes : (w v : ℕ) → length (le_bytes w v) ≡ w
unfolding le_bytes
length-le_bytes zero v = refl
length-le_bytes (suc w) v = ap suc (length-le_bytes w (v / 256))

le_value-le_bytes : (w v : ℕ) → v < 256 ^ w → le_value (le_bytes w v) ≡ v
unfolding le_value le_bytes
le_value-le_bytes zero v h = omega arith
le_value-le_bytes (suc w) v h = omega (arith, le_value-le_bytes w (v / 256) (grind arith))

length-reverse {ℓ} : {A : Type ℓ} (xs : List A) → length (reverse xs) ≡ length xs
length-reverse [] = refl
length-reverse (x ∷ xs) =
    rw (reverse-cons x xs) (omega (arith, length-append (reverse xs) (x ∷ []), length-reverse xs))

pub length-to_ne_bytes : (en : Endian) (w v : ℕ) → length (to_ne_bytes en w v) ≡ w
unfolding to_ne_bytes
length-to_ne_bytes little w v = length-le_bytes w v
length-to_ne_bytes big w v = length-reverse (le_bytes w v) ∙ length-le_bytes w v

pub from_ne_bytes-to_ne_bytes :
    (en : Endian) (w v : ℕ) → v < 256 ^ w → from_ne_bytes en (to_ne_bytes en w v) ≡ v
unfolding from_ne_bytes to_ne_bytes
from_ne_bytes-to_ne_bytes little w v h = le_value-le_bytes w v h
from_ne_bytes-to_ne_bytes big w v h =
    ap le_value (reverse-reverse (le_bytes w v)) ∙ le_value-le_bytes w v h
