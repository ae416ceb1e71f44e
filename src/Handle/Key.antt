-- ===== src/Handle/Key.antt =====
-- The keys of the cache's two maps: filesystem ids and handles.
use fanotify_fid.Base.{
  eq_ℤ, eq_ℤ_iff, ◌==◌, ==_iff, ◌≡◌, ◌↔◌, Bool, true, false, ◌&&◌, [], ◌∷◌, arith,
}
use fanotify_fid.Bytes.{Bytes}
use fanotify_fid.Fid.Event.{Fsid}

abbrev pub same_fsid : Fsid → Fsid → Bool
same_fsid f g = eq_ℤ f.0 g.0 && eq_ℤ f.1 g.1

abbrev pub same_bytes : Bytes → Bytes → Bool
same_bytes [] [] = true
same_bytes (a ∷ xs) (b ∷ ys) = a == b && same_bytes xs ys
same_bytes _ _ = false

pub same_fsid_iff : (f g : Fsid) → (same_fsid f g ≡ true) ↔ (f ≡ g)
same_fsid_iff (a, b) (c, d) = ground (arith, eq_ℤ_iff a c, eq_ℤ_iff b d)

pub same_bytes_iff : (a b : Bytes) → (same_bytes a b ≡ true) ↔ (a ≡ b)
same_bytes_iff [] [] = ground arith
same_bytes_iff [] (b ∷ ys) = ground arith
same_bytes_iff (a ∷ xs) [] = ground arith
same_bytes_iff (a ∷ xs) (b ∷ ys) = ground (arith, ==_iff a b, same_bytes_iff xs ys)
