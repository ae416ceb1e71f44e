-- ===== src/Fid/Shared.antt =====
-- src/fid.rs: a pidfd is an `Arc<OwnedFd>`, which the clones of an event share. One such descriptor
-- over its life, in a process that holds others too.
pub mod Counts
use fanotify_fid.Base.{
  ℕ, zero, suc, ◌+◌, ◌-◌, ◌<◌, ◌==◌, ◌≡◌, refl, sym, ap, subst, ◌∙◌, ℤ, eq_ℤ, eq_ℤ_iff, Bool, true,
  false, not, ◌&&◌, ◌||◌, Option, none, some, arith, if◌then◌else◌, Bool-cases, Option-cases, inl,
  inr,
}
use fanotify_fid.Owners.{Table, opened, closed}
use fanotify_fid.Fid.Event.{Pidfd, missing, fd, unavailable}

-- An `Arc<OwnedFd>`: its descriptor, and how many pidfds hold it.
pub record Shared : Type 0 where
  pub number : ℤ
  pub holders : ℕ

-- `From<OwnedFd> for Pidfd`
unfoldable pub from_owned : ℤ → Pidfd × Shared
from_owned number = (fd number, record { number = number; holders = 1 })

-- The derived `Clone`: of the three variants one shares.
unfoldable pub clone_pidfd : Pidfd → Shared → Pidfd × Shared
clone_pidfd missing s = (missing, s)
clone_pidfd (fd number) s = (fd number, record s { holders = s.holders + 1 })
clone_pidfd (unavailable raw) s = (unavailable raw, s)

-- The last holder of an `Arc` drops what it holds, and an `OwnedFd` closes its descriptor.
unfoldable pub drop_holder : Shared → Table → Shared × Table
drop_holder s table =
    if s.holders == 1
    then (record s { holders = 0 }, closed s.number table)
    else (record s { holders = s.holders - 1 }, table)

unfoldable pub drop_pidfd : Pidfd → Shared → Table → Shared × Table
drop_pidfd missing s table = (s, table)
drop_pidfd (fd number) s table = drop_holder s table
drop_pidfd (unavailable raw) s table = (s, table)

-- What a duplicate adds, if it could be made.
unfoldable pub with_new : Option ℤ → Table → Table
with_new none table = table
with_new (some m) table = opened m table

module _ (sys_dup : Table → ℤ → Option ℤ) where
  -- `Arc::try_unwrap` takes the descriptor out for the only holder. Another one duplicates it, and
  -- is dropped.
  unfoldable pub into_fd : Pidfd → Shared → Table → Option ℤ × Shared × Table
  into_fd missing s table = (none, s, table)
  into_fd (fd number) s table =
      let duplicate = sys_dup table number in
      let rest = drop_holder s (with_new duplicate table) in
      if s.holders == 1
      then (some number, record s { holders = 0 }, table)
      else (duplicate, rest.0, rest.1)
  into_fd (unavailable raw) s table = (none, s, table)

  -- `Shares n s outside table`: pidfds of the descriptor `n` have been cloned, dropped and taken
  -- apart, each time one that there was, and have come to `s`; owners outside hold `outside`, and
  -- the process holds `table` open.
  pub data Shares (n : ℤ) : Shared → Table → Table → Type 0 where
    attached :
        {s : Shared} {outside table : Table}
        → s ≡ (from_owned n).1
        → outside n ≡ false
        → table ≡ opened n outside
        → Shares n s outside table
    elsewhere_opens :
        {s : Shared} {outside outside' table table' : Table} (k : ℤ)
        → Shares n s outside table
        → table k ≡ false
        → outside' ≡ opened k outside
        → table' ≡ opened k table
        → Shares n s outside' table'
    elsewhere_closes :
        {s : Shared} {outside outside' table table' : Table} (k : ℤ)
        → Shares n s outside table
        → outside k ≡ true
        → outside' ≡ closed k outside
        → table' ≡ closed k table
        → Shares n s outside' table'
    cloning :
        {s s' : Shared} {outside table : Table}
        → Shares n s outside table
        → 0 < s.holders
        → s' ≡ (clone_pidfd (fd n) s).1
        → Shares n s' outside table
    dropping :
        {s s' : Shared} {outside table table' : Table}
        → Shares n s outside table
        → 0 < s.holders
        → drop_pidfd (fd n) s table ≡ (s', table')
        → Shares n s' outside table'
    taking :
        {s s' : Shared} {outside outside' table table' : Table} (taken : Option ℤ)
        → Shares n s outside table
        → 0 < s.holders
        → into_fd (fd n) s table ≡ (taken, s', table')
        → outside' ≡ with_new taken outside
        → Shares n s' outside' table'
