-- ===== src/Handle/Counts.antt =====
-- What a cache counts depends on its answers alone, not on how it came to hold them.
use fanotify_fid.Base.{
  ℕ, ◌==◌, ◌≡◌, refl, sym, ap, ◌∙◌, Option, none, some, [], ◌∷◌, length, arith, lookup, total,
  weight, total-lookup, if◌then◌else◌,
}
use fanotify_fid.Bytes.{Bytes}
use fanotify_fid.Fid.Event.{Fsid, FilePath}
use fanotify_fid.Handle.Key.{same_fsid, same_bytes, same_fsid_iff, same_bytes_iff}
use fanotify_fid.Handle.Cache.{
  Level, HandleCache, no_entries, or_default, len, is_empty, filesystems, path_of,
}
use fanotify_fid.Handle.View.{in_level, path_of_lem}
use fanotify_fid.Handle.Entries.{is_empty-len}
use fanotify_fid.Handle.Levels.{IsHandleCache, AllLevels, or_default-handles}

abbrev pub SameAnswers : HandleCache → HandleCache → Type 0
SameAnswers c d = (g : Fsid) (k : Bytes) → path_of c g k ≡ path_of d g k

length-total : (level : Level) → length level ≡ total (λ (p : FilePath). 1) level
length-total [] = refl
length-total ((h, p) ∷ level) = omega (arith, length-total level)

len-total : (c : HandleCache) → len c ≡ total (λ (level : Level). length level) c
unfolding len
len-total [] = refl
len-total ((f, level) ∷ c) = omega (arith, len-total c)

abbrev occupied : Level → ℕ
occupied level = if no_entries level then 0 else 1

filesystems-total : (c : HandleCache) → AllLevels c → filesystems c ≡ total occupied c
unfolding filesystems
filesystems-total [] h = refl
filesystems-total ((f, level) ∷ c) h = ground (arith, filesystems-total c h.1, h.0.holds)

occupied-length : (m n : Level) → length m ≡ length n → occupied m ≡ occupied n
occupied-length [] [] e = refl
occupied-length [] (y ∷ n) e = absurd (omega (arith, e))
occupied-length (x ∷ m) [] e = absurd (omega (arith, e))
occupied-length (x ∷ m) (y ∷ n) e = refl

lookup-or_default :
    (level : Option Level) (k : Bytes) → lookup same_bytes k (or_default level) ≡ in_level level k
unfolding or_default
lookup-or_default none k = refl
lookup-or_default (some level) k = refl

weight-or_default :
    (w : Level → ℕ) (level : Option Level) → w [] ≡ 0 → weight w level ≡ w (or_default level)
unfolding or_default
weight-or_default w none h = sym h
weight-or_default w (some level) h = refl

module _ {c d : HandleCache} (h : IsHandleCache c) (i : IsHandleCache d)
    (same : SameAnswers c d) where
  -- The levels of a filesystem have as many handles.
  length-levels :
      (f : Fsid)
      → length (or_default (lookup same_fsid f c)) ≡ length (or_default (lookup same_fsid f d))
  length-levels f =
      length-total (or_default (lookup same_fsid f c))
      ∙ total-lookup (λ (p : FilePath). 1) same_bytes same_bytes_iff _ _ (or_default-handles c h f)
          (or_default-handles d i f)
          (λ k. ap (weight (λ (p : FilePath). 1)) (
            lookup-or_default (lookup same_fsid f c) k
            ∙ sym (path_of_lem c f k)
            ∙ same f k
            ∙ path_of_lem d f k
            ∙ sym (lookup-or_default (lookup same_fsid f d) k)))
      ∙ sym (length-total (or_default (lookup same_fsid f d)))

  weight-levels :
      (w : Level → ℕ)
      → w [] ≡ 0
      → ((m n : Level) → length m ≡ length n → w m ≡ w n)
      → total w c ≡ total w d
  weight-levels w nothing by_length =
      total-lookup w same_fsid same_fsid_iff c d h.fsids i.fsids (λ f.
        weight-or_default w (lookup same_fsid f c) nothing
        ∙ by_length _ _ (length-levels f)
        ∙ sym (weight-or_default w (lookup same_fsid f d) nothing))

  pub len-SameAnswers : len c ≡ len d
  len-SameAnswers =
      len-total c
      ∙ weight-levels (λ (level : Level). length level) refl (λ m n e. e)
      ∙ sym (len-total d)

  pub filesystems-SameAnswers : filesystems c ≡ filesystems d
  filesystems-SameAnswers =
      filesystems-total c h.levels
      ∙ weight-levels occupied refl occupied-length
      ∙ sym (filesystems-total d i.levels)

  pub is_empty-SameAnswers : is_empty c ≡ is_empty d
  is_empty-SameAnswers = is_empty-len c ∙ ap (λ n. n == 0) len-SameAnswers ∙ sym (is_empty-len d)
