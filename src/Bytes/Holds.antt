-- ===== src/Bytes/Holds.antt =====
-- `Holds buf at bs`: the bytes of `buf` from `at` on begin with `bs`. What the readers find there.
use fanotify_fid.Base.{
  ℕ, ◌+◌, ◌-◌, ◌^◌, ◌≤◌, ◌<◌, ◌≡◌, refl, sym, ap, ◌∙◌, some, ◌++◌, arith, length, take, drop,
  length-append, length-take, take-append-drop, take-append_left, drop-append_left, le→leb,
  drop-drop, take-take, take-drop,
}
use fanotify_fid.Bytes.{
  Bytes, Endian, get_range, from_ne_bytes, to_ne_bytes, read_field, read_u32, read_u64,
}
use fanotify_fid.Bytes.Words.{length-to_ne_bytes, from_ne_bytes-to_ne_bytes}

pub record Holds (buf : Bytes) (at : ℕ) (bs : Bytes) : Type 0 where
  pub within : at + length bs ≤ length buf
  pub reads : take (length bs) (drop at buf) ≡ bs

pub Holds-append : (pre bs post : Bytes) → Holds (pre ++ (bs ++ post)) (length pre) bs
Holds-append pre bs post = record {
  within = omega (arith, length-append pre (bs ++ post), length-append bs post);
  reads =
      ap (take (length bs)) (drop-append_left (length pre) pre (bs ++ post) refl)
      ∙ take-append_left (length bs) bs post refl;
}

module _ {buf : Bytes} {at : ℕ} where
  pub Holds-left : (xs ys : Bytes) → Holds buf at (xs ++ ys) → Holds buf at xs
  Holds-left xs ys h = record {
    within = omega (arith, h.within, length-append xs ys);
    reads =
        sym (
          take-take (length xs) (length (xs ++ ys)) (drop at buf)
            (omega (arith, length-append xs ys)))
        ∙ ap (take (length xs)) h.reads
        ∙ take-append_left (length xs) xs ys refl;
  }

  pub Holds-right : (xs ys : Bytes) → Holds buf at (xs ++ ys) → Holds buf (at + length xs) ys
  Holds-right xs ys h = record {
    within = omega (arith, h.within, length-append xs ys);
    reads =
        ap (take (length ys)) (sym (drop-drop (length xs) at buf))
        ∙ take-drop (length xs) (length (xs ++ ys)) (length ys) (drop at buf) (length-append xs ys)
        ∙ ap (drop (length xs)) h.reads
        ∙ drop-append_left (length xs) xs ys refl;
  }

  pub Holds-take : (n : ℕ) (bs : Bytes) → n ≤ length bs → Holds buf at bs → Holds buf at (take n bs)
  Holds-take n bs fits h = Holds-left (take n bs) (drop n bs) (rw (← take-append-drop n bs) at h)

  pub Holds-drop :
      (n : ℕ) (bs : Bytes) → n ≤ length bs → Holds buf at bs → Holds buf (at + n) (drop n bs)
  Holds-drop n bs fits h =
      rw taken at (Holds-right (take n bs) (drop n bs) (rw (← take-append-drop n bs) at h))
    where
      taken : length (take n bs) ≡ n
      taken = omega (arith, length-take n bs)

  pub get_range-Holds :
      (bs : Bytes) (to : ℕ) → Holds buf at bs → to ≡ at + length bs → get_range buf at to ≡ some bs
  unfolding get_range
  get_range-Holds bs to h e =
      rw
        (e, le→leb at (at + length bs) (omega arith), le→leb (at + length bs) (length buf) h.within)
        (ap some (
          ap (λ n. take n (drop at buf))
            (let d : at + length bs - at ≡ length bs = omega arith in d)
          ∙ h.reads))

  pub read_field-Holds :
      (en : Endian) (w : ℕ) (bs : Bytes)
      → Holds buf at bs
      → w ≡ length bs
      → read_field en w buf at ≡ from_ne_bytes en bs
  unfolding read_field
  read_field-Holds en w bs h e = rw (e, h.reads)

  -- A word that was written in the host's byte order is read back.
  pub read_field-word :
      (en : Endian) (w v : ℕ)
      → Holds buf at (to_ne_bytes en w v)
      → v < 256 ^ w
      → read_field en w buf at ≡ v
  read_field-word en w v h b =
      read_field-Holds en w (to_ne_bytes en w v) h (sym (length-to_ne_bytes en w v))
      ∙ from_ne_bytes-to_ne_bytes en w v b

  pub read_u32-word :
      (en : Endian) (v len : ℕ)
      → Holds buf at (to_ne_bytes en 4 v)
      → v < 2 ^ 32
      → 4 ≤ len
      → read_u32 en buf at len ≡ some v
  unfolding read_u32
  read_u32-word en v len h b l =
      rw
        (
          get_range-Holds (to_ne_bytes en 4 v) (at + 4) h
              (omega (arith, length-to_ne_bytes en 4 v)),
          le→leb 4 len l,
        )
        (ap some (from_ne_bytes-to_ne_bytes en 4 v b))

  -- Any eight bytes are read as a number.
  pub read_u64-Holds :
      (en : Endian) (bs : Bytes) (len : ℕ)
      → Holds buf at bs
      → length bs ≡ 8
      → 8 ≤ len
      → read_u64 en buf at len ≡ some (from_ne_bytes en bs)
  unfolding read_u64
  read_u64-Holds en bs len h e l =
      rw (get_range-Holds bs (at + 8) h (omega arith), le→leb 8 len l) refl

  pub read_u64-word :
      (en : Endian) (v len : ℕ)
      → Holds buf at (to_ne_bytes en 8 v)
      → v < 2 ^ 64
      → 8 ≤ len
      → read_u64 en buf at len ≡ some v
  unfolding read_u64
  read_u64-word en v len h b l =
      rw
        (
          get_range-Holds (to_ne_bytes en 8 v) (at + 8) h
              (omega (arith, length-to_ne_bytes en 8 v)),
          le→leb 8 len l,
        )
        (ap some (from_ne_bytes-to_ne_bytes en 8 v b))
