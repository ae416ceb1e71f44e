-- ===== src/Handle/Encode.antt =====
-- src/handle.rs: `name_to_handle_at` and `handle_from_fd`, which ask the kernel for a handle. Its
-- answer is a parameter: the buffer as it leaves it, or an errno.
use Prim.Native.Nat.{bit_or}
use fanotify_fid.Base.{
  ℕ, ℤ, ◌+◌, ◌-◌, ◌≡◌, refl, Bool, true, false, [], ◌++◌, min, length, take, replicate, arith,
  if◌then◌else◌, length-take, length-append, length-replicate, Bool-cases, inl, inr, ◌==◌, ◌∙◌, ◌⊎◌,
  subst,
}
use fanotify_fid.Bytes.{Bytes, Endian, to_ne_bytes, from_ne_bytes}
use fanotify_fid.Bytes.Words.{length-to_ne_bytes}
use fanotify_fid.Consts.{
  file_handle_header_size, max_file_handle_size, max_handle_sz, at_fdcwd, at_empty_path,
  at_handle_fid,
}
use fanotify_fid.Errors.Errno
use fanotify_fid.Fid.Event.{FilePath}
use fanotify_fid.Sys.Calls.{has_nul}
use fanotify_fid.Handle.Open.{
  IoResult, done, failed, os, invalid_input, bad_length, retry_without_flag, name_to_handle_at_raw,
  open_by_handle_at,
}

pub data NameAnswer : Type 0 where
  wrote : Bytes → NameAnswer
  refused : ℕ → NameAnswer

module _ (en : Endian) where
  -- The largest capacity stands in the first four bytes.
  unfoldable pub empty_handle : Bytes
  empty_handle = to_ne_bytes en 4 max_handle_sz ++ replicate (max_file_handle_size - 4) 0

  -- The header, and as many bytes as the kernel says that it used, up to the capacity.
  unfoldable pub used_bytes : Bytes → ℕ
  used_bytes buf = file_handle_header_size + min (from_ne_bytes en (take 4 buf)) max_handle_sz

  unfoldable pub encoded : NameAnswer → IoResult Bytes
  encoded (wrote buf) = done (take (used_bytes buf) buf)
  encoded (refused e) = failed (os e)

  module _ (sys_name : ℤ → Bytes → Bytes → ℕ → NameAnswer) where
    unfoldable pub name_to_handle_at_flags : ℤ → Bytes → ℕ → IoResult Bytes
    name_to_handle_at_flags dir_fd path flags = encoded (sys_name dir_fd path empty_handle flags)

    abbrev ask : ℤ → Bytes → ℕ → Bool → IoResult Bytes
    ask dir_fd path flags fid =
        name_to_handle_at_flags dir_fd path (if fid then bit_or flags at_handle_fid else flags)

    unfoldable pub handle_from_fd : ℤ → IoResult Bytes
    handle_from_fd fd = name_to_handle_at_raw (ask fd [] at_empty_path)

    -- `c_path` refuses a path with a NUL byte.
    unfoldable pub name_to_handle_at : Bytes → IoResult Bytes
    name_to_handle_at path =
        if has_nul path then failed invalid_input else name_to_handle_at_raw (ask at_fdcwd path 0)

    -- The kernel writes into the buffer and moves none of its ends.
    module _
        (in_place : (dir_fd : ℤ) (path buf : Bytes) (flags : ℕ) (after : Bytes)
          → sys_name dir_fd path buf flags ≡ wrote after
          → length after ≡ length buf) where
      abbrev Allowed : IoResult Bytes → Type 0
      Allowed (done handle) = bad_length handle ≡ false
      Allowed (failed e) = Unit

      length-empty_handle : length empty_handle ≡ max_file_handle_size
      unfolding empty_handle
      length-empty_handle = omega (
        arith,
        length-append (to_ne_bytes en 4 max_handle_sz)
            (replicate {A = ℕ} (max_file_handle_size - 4) 0),
        length-to_ne_bytes en 4 max_handle_sz,
        length-replicate {A = ℕ} (max_file_handle_size - 4) 0,
      )

      encoded-Allowed :
          (answer : NameAnswer)
          → ((after : Bytes) → answer ≡ wrote after → length after ≡ max_file_handle_size)
          → Allowed (encoded answer)
      unfolding encoded used_bytes bad_length
      encoded-Allowed (wrote buf) h =
          let size = h buf refl in
          let taken = length-take (used_bytes buf) buf in
          unfold used_bytes in ground (arith, size, taken)
      encoded-Allowed (refused e) h = tt

      retry-Allowed :
          (ask : Bool → IoResult Bytes) (first : IoResult Bytes)
          → Allowed first
          → Allowed (ask false)
          → Allowed (retry_without_flag ask first)
      unfolding retry_without_flag
      retry-Allowed ask (done handle) ok second = ok
      retry-Allowed ask (failed invalid_input) ok second = tt
      retry-Allowed ask (failed (os e)) ok second = elim (Bool-cases (e == Errno.einval)) [
        | inl old ↦ rw old second
        | inr other ↦ rw other tt
      ]

      flags-Allowed :
          (dir_fd : ℤ) (path : Bytes) (flags : ℕ)
          → Allowed (name_to_handle_at_flags dir_fd path flags)
      unfolding name_to_handle_at_flags
      flags-Allowed dir_fd path flags =
          encoded-Allowed (sys_name dir_fd path empty_handle flags)
            (λ after e. in_place dir_fd path empty_handle flags after e ∙ length-empty_handle)

      raw-Allowed :
          (dir_fd : ℤ) (path : Bytes) (flags : ℕ)
          → Allowed (name_to_handle_at_raw (ask dir_fd path flags))
      unfolding name_to_handle_at_raw
      raw-Allowed dir_fd path flags =
          retry-Allowed (ask dir_fd path flags) (ask dir_fd path flags true)
            (flags-Allowed dir_fd path (bit_or flags at_handle_fid))
            (flags-Allowed dir_fd path flags)

      name-Allowed : (path : Bytes) → Allowed (name_to_handle_at path)
      unfolding name_to_handle_at
      name-Allowed path = elim (Bool-cases (has_nul path)) [
        | inl nul ↦ rw nul tt
        | inr text ↦ rw text (raw-Allowed at_fdcwd path 0)
      ]

      fd-Allowed : (fd : ℤ) → Allowed (handle_from_fd fd)
      unfolding handle_from_fd
      fd-Allowed fd = raw-Allowed fd [] at_empty_path

      -- A handle that was looked up by a path or by a descriptor is never refused for its length
      -- when it is opened, whatever length the kernel said that it has: the kernel is asked.
      pub open_by_handle_at-encoded :
          (sys_open : ℤ → Bytes → IoResult ℤ) (read_link : ℤ → IoResult FilePath) (mount fd : ℤ)
          (path handle : Bytes)
          → (name_to_handle_at path ≡ done handle) ⊎ (handle_from_fd fd ≡ done handle)
          → open_by_handle_at sys_open read_link mount handle ≡ sys_open mount handle
      unfolding open_by_handle_at
      open_by_handle_at-encoded sys_open read_link mount fd path handle (inl by_path) =
          rw (subst Allowed by_path (name-Allowed path)) refl
      open_by_handle_at-encoded sys_open read_link mount fd path handle (inr by_fd) =
          rw (subst Allowed by_fd (fd-Allowed fd)) refl
