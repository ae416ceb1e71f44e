-- ===== src/Fid/Shared/Counts.antt =====
-- src/fid.rs: who owns the descriptor of a shared pidfd, and when it is closed.
use fanotify_fid.Base.{◌<◌, ◌==◌, ◌≡◌, ℤ, eq_ℤ, false, not, ◌&&◌, ◌||◌, Option}
use fanotify_fid.Owners.{Table}
use fanotify_fid.Fid.Shared.{Shared, with_new}

-- While a pidfd holds the descriptor no owner outside does; and what the process holds open is what
-- the owners outside hold, and the descriptor as long as a pidfd holds it.
pub record Counted (n : ℤ) (s : Shared) (outside table : Table) : Type 0 where
  pub about : s.number ≡ n
  pub apart : 0 < s.holders → outside n ≡ false
  pub all_open : (k : ℤ) → table k ≡ (outside k || (not (s.holders == 0) && eq_ℤ n k))

-- What is left of a pidfd and of the table when it is taken apart.
abbrev Left : ℤ → Table → Option ℤ × Shared × Table → Type 0
Left n outside (taken, s, table) = Counted n s (with_new taken outside) table
